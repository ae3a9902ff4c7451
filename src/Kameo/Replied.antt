-- ===== src/Kameo/Replied.antt =====
-- crates/kamiroh-adapter-kameo/src/lib.rs: a reply of a Kameo host, seen without its timers.
use kamiroh.Common.{
  sym, ap, refl, none, some, Option, ◌∙◌, ok, err, inl, inr, Result, ap₂, Result-cases,
}
use kamiroh.App.Exchanging.{
  View, see_state, see_failure, see_answer, see_reply, entry_or-map_values,
}
use kamiroh.Kameo.Timers.{with_waits, answer_with, arm, send_reply, id_posed, waits_of}
use kamiroh.App.Parties.{put, entry_or-put}
use kamiroh.Common.{inl, inr, List, ◌≡◌, ap, refl}
use kamiroh.Kameo.Host.{Hosted, PeerWaits, fail_exchange, no_waits, emit, failed_waits, settle_all}
use kamiroh.Domain.Address.{Address, Address-discrete}
use kamiroh.Ports.{Transport, Party}
use kamiroh.Domain.TurnState.{TurnState, fail, TurnProgress, TurnError, on_outgoing}
use kamiroh.Common.Assoc.{map_values, map_values-insert, map_values-modify, insert-insert}
use kamiroh.Domain.Deadline.{FailureCause, illegal_reply, send_failed}
use kamiroh.Domain.Vocabulary.{Turn, RequestId, turn_message}

abbrev pub states_of : List (Address × PeerWaits) → List (Address × TurnState)
states_of = map_values Address-discrete λ ws. ws.state

abbrev pub host_view : {S P : Type 0} → Hosted S P → View S P
host_view h = record {
  address = h.host.address;
  world = h.world;
  events = h.events;
  party = h.host.party;
  states = states_of h.host.conversations;
}

-- A conversation that is written twice with one state.
states_of-put :
    (peer : Address) (ws vs : PeerWaits) (m : List (Address × PeerWaits))
    → vs.state ≡ ws.state
    → states_of (put peer vs (put peer ws m)) ≡ states_of (put peer ws m)
states_of-put peer ws vs m p =
    let f : PeerWaits → TurnState = λ ws. ws.state in
    map_values-insert Address-discrete f peer vs (put peer ws m)
    ∙ ap₂ (put peer) p (map_values-insert Address-discrete f peer ws m)
    ∙ insert-insert Address-discrete peer ws.state ws.state (states_of m)
    ∙ sym (map_values-insert Address-discrete f peer ws m)

module _ {S P : Type 0} (net : Transport S) (own : Party P) where
  pub with_waits-view :
      (peer : Address) (ws : PeerWaits) (h : Hosted S P)
      → host_view (with_waits net own peer ws h) ≡ see_state net own peer ws.state (host_view h)
  with_waits-view peer ws h =
      ap (λ m. record (host_view h) { states = m })
        (map_values-insert Address-discrete (λ ws. ws.state) peer ws h.host.conversations)

  fail_exchange-view :
      (peer : Address) (cause : FailureCause) (h : Hosted S P)
      → host_view (fail_exchange own peer cause h) ≡ see_failure net own peer cause (host_view h)
  unfolding fail_exchange emit failed_waits settle_all
  fail_exchange-view peer cause h =
      ap (λ m. record (see_failure net own peer cause (host_view h)) { states = m })
        (map_values-modify Address-discrete (λ ws. ws.state) peer failed_waits (λ s. (fail s).0)
          h.host.conversations (λ ws. refl))

  arm-view :
      (peer : Address) (posed : Option RequestId) (progress : TurnProgress) (ws : PeerWaits)
      (h : Hosted S P)
      → host_view (arm net own peer posed progress (with_waits net own peer ws h))
        ≡ host_view (with_waits net own peer ws h)
  unfolding arm
  arm-view peer posed progress ws h =
      ap (λ m. record (host_view h) { states = m })
        (states_of-put peer ws _ h.host.conversations
          (ap (λ x. x.state) (entry_or-put peer no_waits ws h.host.conversations)))

  send_reply-view :
      (peer : Address) (t : Turn) (progress : TurnProgress) (ws : PeerWaits) (h : Hosted S P)
      → host_view (send_reply net own peer t progress (with_waits net own peer ws h))
        ≡ see_reply net own peer t (host_view (with_waits net own peer ws h))
  unfolding send_reply
  send_reply-view peer t progress ws h =
      let (w, answer) = net.send h.world h.host.address peer (turn_message t) in
      let h' : Hosted S P = record h { world = w } in
      elim (Result-cases answer) [
        | inl (u, p) ↦ rw (p, send_reply, see_reply) (arm-view peer (id_posed t) progress ws h')
        | inr (e, p) ↦
            rw (p, send_reply, see_reply)
              (fail_exchange-view peer send_failed (with_waits net own peer ws h'))
      ]

  -- What `answer_with` does with the outcome of the machine.
  answered-view :
      (peer : Address) (t : Turn) (ws : PeerWaits) (h : Hosted S P)
      (outcome : Result TurnProgress TurnError)
      → host_view (elim outcome [
        | err e ↦ fail_exchange own peer illegal_reply (with_waits net own peer ws h)
        | ok progress ↦ send_reply net own peer t progress (with_waits net own peer ws h)
      ])
        ≡ elim outcome [
          | err e ↦
              see_failure net own peer illegal_reply (host_view (with_waits net own peer ws h))
          | ok progress ↦ see_reply net own peer t (host_view (with_waits net own peer ws h))
        ]
  answered-view peer t ws h (err e) =
      fail_exchange-view peer illegal_reply (with_waits net own peer ws h)
  answered-view peer t ws h (ok progress) = send_reply-view peer t progress ws h

  pub answer_with-view :
      (peer : Address) (reply : Option Turn) (h : Hosted S P)
      → host_view (answer_with net own peer reply h) ≡ see_answer net own peer reply (host_view h)
  unfolding answer_with
  answer_with-view peer none h = refl
  answer_with-view peer (some t) h =
      let ws = waits_of net own h peer in
      let (s, outcome) = on_outgoing ws.state t in
      let ws' : PeerWaits = record ws { state = s } in
      answered-view peer t ws' h outcome
      ∙ ap
          (λ v. elim outcome [
            | err e ↦ see_failure net own peer illegal_reply v
            | ok progress ↦ see_reply net own peer t v
          ])
          (with_waits-view peer ws' h)
      ∙ ap
          (λ x.
            let (s, outcome) = on_outgoing x t in
            elim outcome [
              | err e ↦
                  see_failure net own peer illegal_reply (see_state net own peer s (host_view h))
              | ok progress ↦ see_reply net own peer t (see_state net own peer s (host_view h))
            ])
          (entry_or-map_values (λ (ws : PeerWaits). ws.state) no_waits peer h.host.conversations)
