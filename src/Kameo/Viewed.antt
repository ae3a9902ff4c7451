-- ===== src/Kameo/Viewed.antt =====
-- crates/kamiroh-adapter-kameo/src/lib.rs: a Kameo host, seen without its timers.
use kamiroh.Common.{ap, refl, none, some, Option, ◌∙◌, ok, err, inl, inr, Result}
use kamiroh.App.Exchanging.{
  see_answer, see_ack, see_party, see_turn, see_event, entry_or-map_values, see_heard, see_legal,
}
use kamiroh.Kameo.Timers.{with_waits, answer_with, ask_party, send_ack, take_turn, waits_of}
use kamiroh.Common.{inl, inr, ◌≡◌, Option-cases, ap, refl}
use kamiroh.Kameo.Host.{Hosted, PeerWaits, no_waits, emit, settle_all}
use kamiroh.Domain.Address.{Address}
use kamiroh.Ports.{Transport, Party, illegal_turn_dropped}
use kamiroh.Domain.TurnState.{TurnProgress, TurnError, on_incoming}
use kamiroh.Domain.Vocabulary.{Turn, Message}
use kamiroh.Kameo.Replied.{host_view, answer_with-view, with_waits-view}

module _ {S P : Type 0} (net : Transport S) (own : Party P) where
  send_ack-view :
      (peer : Address) (ack : Option Message) (h : Hosted S P)
      → host_view (send_ack net own peer ack h) ≡ see_ack net own peer ack (host_view h)
  unfolding send_ack
  send_ack-view peer none h = refl
  send_ack-view peer (some ack) h = refl

  ask_party-view :
      (peer : Address) (t : Turn) (h : Hosted S P)
      → (host_view (ask_party net own peer t h).0, (ask_party net own peer t h).1)
        ≡ see_party net own peer t (host_view h)
  unfolding ask_party
  ask_party-view peer t h = elim (Option-cases h.host.party) [
    | inl p ↦ rw (p, ask_party, see_party) refl
    | inr (x, p) ↦ rw (p, ask_party, see_party) refl
  ]

  legal-view :
      (peer : Address) (t : Turn) (ack : Option Message) (h : Hosted S P)
      → (let (h', reply) = ask_party net own peer t (send_ack net own peer ack h) in
          host_view (answer_with net own peer reply h'))
        ≡ see_legal net own peer t ack (host_view h)
  legal-view peer t ack h =
      let heard = send_ack net own peer ack h in
      let (h', reply) = ask_party net own peer t heard in
      answer_with-view net own peer reply h'
      ∙ ap (λ x. see_answer net own peer x.1 x.0) (ask_party-view peer t heard)
      ∙ ap (λ v. let (v', reply) = see_party net own peer t v in see_answer net own peer reply v')
          (send_ack-view peer ack h)

  heard-view :
      (peer : Address) (t : Turn) (ack : Option Message) (ws : PeerWaits) (h : Hosted S P)
      (outcome : Result TurnProgress TurnError)
      → host_view (elim outcome [
        | err e ↦
            emit own (illegal_turn_dropped peer h.host.address e) (with_waits net own peer ws h)
        | ok progress ↦
            let (h', reply) =
              ask_party net own peer t
                (send_ack net own peer ack (with_waits net own peer (settle_all ws) h)) in
            answer_with net own peer reply h'
      ])
        ≡ see_heard net own peer t ack (ws.state, outcome) (host_view h)
  unfolding emit settle_all
  heard-view peer t ack ws h (err e) =
      ap (see_event net own (illegal_turn_dropped peer h.host.address e))
        (with_waits-view net own peer ws h)
  heard-view peer t ack ws h (ok progress) =
      legal-view peer t ack (with_waits net own peer (settle_all ws) h)
      ∙ ap (see_legal net own peer t ack) (with_waits-view net own peer (settle_all ws) h)

  -- Seen without its timers, a Kameo host does with an admitted turn exactly what a hosted actor
  -- promises: the same sends in the same order, the same events, the same party and the same turn
  -- machines, on every branch.
  pub take_turn-view :
      (peer : Address) (t : Turn) (ack : Option Message) (h : Hosted S P)
      → host_view (take_turn net own peer t ack h) ≡ see_turn net own peer t ack (host_view h)
  unfolding take_turn
  take_turn-view peer t ack h =
      let ws = waits_of net own h peer in
      let (s, outcome) = on_incoming ws.state t in
      heard-view peer t ack (record ws { state = s }) h outcome
      ∙ ap (λ x. see_heard net own peer t ack (on_incoming x t) (host_view h))
          (entry_or-map_values (λ (ws : PeerWaits). ws.state) no_waits peer h.host.conversations)
