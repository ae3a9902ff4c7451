-- ===== src/App/Runtime/Viewed.antt =====
-- crates/kamiroh-app/src/runtime.rs: an actor of a LocalRuntime, seen without its deadlines.
use kamiroh.Common.{ap, refl, some, List, ◌≡◌, subst, sym, none, ok, err, Result, Option, Text}
use kamiroh.Common.Assoc.{get, get-insert_self, map_values, map_values-insert, map_values-modify}
use kamiroh.App.Exchanging.{
  View, see_failure, see_state, see_reply, see_answer, entry_or-map_values,
}
use kamiroh.App.Runtime.Failing.{fail_exchange_eq}
use kamiroh.App.Runtime.Replies.{written, answer_eq, speak_legal, speak_illegal}
use kamiroh.App.Runtime.{
  LocalRuntime, LocalActor, PeerState, Ports, address_of, Stepped, RuntimeError, delivered,
  transport_failed, no_exchange_yet,
}
use kamiroh.App.Runtime.Turns.{write_peer, send_reply, send, answer_with, finish_reply, peer_state}
use kamiroh.App.Runtime.Manage.{fail_exchange, failed_actor, failed_peer}
use kamiroh.Domain.Address.{ActorName, ActorName-discrete, Address, Address-discrete}
use kamiroh.Domain.TurnState.{TurnState, fail, TurnProgress, TurnError, on_outgoing}
use kamiroh.Domain.Deadline.{FailureCause, send_failed, illegal_reply}
use kamiroh.Domain.Vocabulary.{Turn, turn_message, Message}

abbrev pub states_of : List (Address × PeerState) → List (Address × TurnState)
states_of = map_values Address-discrete λ ps. ps.state

abbrev pub local_view : {S P : Type 0} → ActorName → LocalActor P → LocalRuntime S P → View S P
local_view name a r = record {
  address = address_of r name;
  world = r.world;
  events = r.observer;
  party = a.party;
  states = states_of a.conversations;
}

-- The actor of that name is there, and looks so.
abbrev pub Shown : {S P : Type 0} → ActorName → LocalRuntime S P → View S P → Type 0
Shown {P = P} name r v =
    (a : LocalActor P) × (get ActorName-discrete name r.actors ≡ some a) × (local_view name a r ≡ v)

module _ {S P : Type 0} (ports : Ports S P) where
  fail_exchange-Shown :
      (name : ActorName) (peer : Address) (cause : FailureCause) (r : LocalRuntime S P)
      (a : LocalActor P)
      → get ActorName-discrete name r.actors ≡ some a
      → Shown name
          (fail_exchange ports name peer cause r).0
          (see_failure ports.transport ports.own peer cause (local_view name a r))
  unfolding failed_actor failed_peer
  fail_exchange-Shown name peer cause r a h =
      let v = see_failure ports.transport ports.own peer cause (local_view name a r) in
      subst (λ y. Shown name y.0 v) (sym (fail_exchange_eq ports name peer cause r h))
        (
          failed_actor ports a peer cause,
          get-insert_self ActorName-discrete name (failed_actor ports a peer cause) r.actors,
          ap (λ m. record v { states = m })
              (map_values-modify Address-discrete (λ ps. ps.state) peer failed_peer
                (λ s. (fail s).0) a.conversations (λ ps. refl)),
        )

  pub write_peer-view :
      (name : ActorName) (peer : Address) (ps : PeerState) (a : LocalActor P) (r : LocalRuntime S P)
      → local_view name (write_peer a peer ps) (written ports name peer a ps r)
        ≡ see_state ports.transport ports.own peer ps.state (local_view name a r)
  write_peer-view name peer ps a r =
      ap (λ m. record (local_view name a r) { states = m })
        (map_values-insert Address-discrete (λ ps. ps.state) peer ps a.conversations)

  -- A write to a conversation shows.
  written-Shown :
      (name : ActorName) (peer : Address) (ps : PeerState) (a : LocalActor P) (r : LocalRuntime S P)
      → Shown name
          (written ports name peer a ps r)
          (see_state ports.transport ports.own peer ps.state (local_view name a r))
  written-Shown name peer ps a r = (
    write_peer a peer ps,
    get-insert_self ActorName-discrete name (write_peer a peer ps) r.actors,
    write_peer-view name peer ps a r,
  )

  -- A failure after a write.
  failed_written-Shown :
      (name : ActorName) (peer : Address) (cause : FailureCause) (ps : PeerState) (a : LocalActor P)
      (r : LocalRuntime S P)
      → Shown name (fail_exchange ports name peer cause (written ports name peer a ps r)).0 (
          see_failure ports.transport ports.own peer cause
            (see_state ports.transport ports.own peer ps.state (local_view name a r)))
  failed_written-Shown name peer cause ps a r =
      let r' = written ports name peer a ps r in
      subst
        (λ v.
          Shown name (fail_exchange ports name peer cause r').0
            (see_failure ports.transport ports.own peer cause v))
        (write_peer-view name peer ps a r)
        (fail_exchange-Shown name peer cause r' (write_peer a peer ps)
          (get-insert_self ActorName-discrete name (write_peer a peer ps) r.actors))

  -- What a send answers a runtime.
  abbrev sent_result : Result (Unit {0}) Text → Result (Unit {0}) RuntimeError
  sent_result (ok u) = ok tt
  sent_result (err e) = err (transport_failed e)

  sent_eq :
      (r : LocalRuntime S P) (answer : Result (Unit {0}) Text)
      → elim answer as (λ _. LocalRuntime S P × Result (Unit {0}) RuntimeError) [
        | ok u ↦ (r, ok tt)
        | err e ↦ (r, err (transport_failed e))
      ]
        ≡ (r, sent_result answer)
  sent_eq r (ok u) = refl
  sent_eq r (err e) = refl

  pub send_eq :
      (from to : Address) (m : Message) (r : LocalRuntime S P)
      → let (w, answer) = ports.transport.send r.world from to m in
        send ports from to m r ≡ (record r { world = w }, sent_result answer)
  unfolding send
  send_eq from to m r =
      let (w, answer) = ports.transport.send r.world from to m in
      sent_eq (record r { world = w }) answer

  sent-Shown :
      (name : ActorName) (peer : Address) (ps : PeerState) (a : LocalActor P) (r : LocalRuntime S P)
      (answer : Result (Unit {0}) Text)
      → let v = see_state ports.transport ports.own peer ps.state (local_view name a r) in
        Shown name
          (elim (sent_result answer) as (λ _. LocalRuntime S P × Result Stepped RuntimeError) [
            | ok u ↦ (written ports name peer a ps r, ok delivered)
            | err e ↦ fail_exchange ports name peer send_failed (written ports name peer a ps r)
          ]).0
          (elim answer [
            | ok u ↦ v
            | err e ↦ see_failure ports.transport ports.own peer send_failed v
          ])
  sent-Shown name peer ps a r (ok u) = written-Shown name peer ps a r
  sent-Shown name peer ps a r (err e) = failed_written-Shown name peer send_failed ps a r

  send_reply-Shown :
      (name : ActorName) (peer : Address) (t : Turn) (ps : PeerState) (a : LocalActor P)
      (r : LocalRuntime S P)
      → Shown name
          (send_reply ports name (address_of r name) peer t (written ports name peer a ps r)).0
          (see_reply ports.transport ports.own peer t
            (see_state ports.transport ports.own peer ps.state (local_view name a r)))
  unfolding send_reply
  send_reply-Shown name peer t ps a r =
      let me = address_of r name in
      let (w, answer) = ports.transport.send r.world me peer (turn_message t) in
      let v = see_state ports.transport ports.own peer ps.state (local_view name a r) in
      subst
        (λ y.
          Shown name
            (elim y.1 as (λ _. LocalRuntime S P × Result Stepped RuntimeError) [
              | ok u ↦ (y.0, ok delivered)
              | err e ↦ fail_exchange ports name peer send_failed y.0
            ]).0
            (see_reply ports.transport ports.own peer t v))
        (sym (send_eq me peer (turn_message t) (written ports name peer a ps r)))
        (sent-Shown name peer ps a (record r { world = w }) answer)

  -- What follows the answer of the machine to a reply.
  abbrev see_spoken :
      Address → Turn → TurnState × Result TurnProgress TurnError → View S P → View S P
  see_spoken peer t said v = elim said.1 [
    | err e ↦
        see_failure ports.transport ports.own peer illegal_reply
          (see_state ports.transport ports.own peer said.0 v)
    | ok progress ↦
        see_reply ports.transport ports.own peer t
          (see_state ports.transport ports.own peer said.0 v)
  ]

  spoken-Shown :
      (name : ActorName) (peer : Address) (t : Turn) (r : LocalRuntime S P) (a : LocalActor P)
      (s : TurnState) (outcome : Result TurnProgress TurnError)
      → get ActorName-discrete name r.actors ≡ some a
      → on_outgoing (peer_state a peer).state t ≡ (s, outcome)
      → Shown name
          (answer_with ports name (address_of r name) peer (some t) r).0
          (see_spoken peer t (s, outcome) (local_view name a r))
  unfolding finish_reply
  spoken-Shown name peer t r a s (ok progress) h p =
      let ps = peer_state a peer in
      let e =
        answer_eq ports name (address_of r name) peer t r h
          (speak_legal a.deadlines (ports.timer.now r.world) ps t p) in
      subst (λ y. Shown name y.0 (see_spoken peer t (s, ok progress) (local_view name a r))) (sym e)
        (send_reply-Shown name peer t _ a r)
  spoken-Shown name peer t r a s (err x) h p =
      let ps = peer_state a peer in
      let e =
        answer_eq ports name (address_of r name) peer t r h
          (speak_illegal a.deadlines (ports.timer.now r.world) ps t p) in
      subst (λ y. Shown name y.0 (see_spoken peer t (s, err x) (local_view name a r))) (sym e)
        (failed_written-Shown name peer illegal_reply _ a r)

  pub answer_with-Shown :
      (name : ActorName) (peer : Address) (reply : Option Turn) (r : LocalRuntime S P)
      (a : LocalActor P)
      → get ActorName-discrete name r.actors ≡ some a
      → Shown name
          (answer_with ports name (address_of r name) peer reply r).0
          (see_answer ports.transport ports.own peer reply (local_view name a r))
  unfolding answer_with
  answer_with-Shown name peer none r a h = (a, h, refl)
  answer_with-Shown name peer (some t) r a h =
      let (s, outcome) = on_outgoing (peer_state a peer).state t in
      subst
        (λ x.
          Shown name (answer_with ports name (address_of r name) peer (some t) r).0
            (see_spoken peer t (on_outgoing x t) (local_view name a r)))
        (entry_or-map_values (λ (ps : PeerState). ps.state) no_exchange_yet peer a.conversations)
        (spoken-Shown name peer t r a s outcome h refl)
