-- ===== src/App/Runtime/Hearing.antt =====
-- crates/kamiroh-app/src/runtime.rs: a turn of a peer, seen without the deadlines of its waits.
use kamiroh.Common.{
  sym, ap, refl, subst, none, some, ok, inl, inr, Option, ◌≡◌, Option-cases, err, Result, ◌∙◌,
}
use kamiroh.Common.Assoc.{get, insert, get-insert_self}
use kamiroh.App.Exchanging.{
  see_legal, see_party, see_answer, see_turn, see_heard, entry_or-map_values, see_event,
}
use kamiroh.App.Runtime.Failing.{bind_actor_at, and_then}
use kamiroh.App.Runtime.Replies.{written}
use kamiroh.App.Runtime.Viewed.{Shown, local_view, answer_with-Shown, send_eq, write_peer-view}
use kamiroh.App.Runtime.{
  LocalRuntime, LocalActor, Ports, address_of, write_actor, pure, ◌>>=◌, ◌>>◌, PeerState, emit,
  no_exchange_yet,
}
use kamiroh.App.Runtime.Turns.{
  after_arrival, arrive, hear_turn, hand_over, ask_party, answer_with, send_ack, peer_state,
  write_peer, drop_illegal, take_turn,
}
use kamiroh.Domain.Address.{ActorName, Address, ActorName-discrete}
use kamiroh.App.Parties.{DynParty}
use kamiroh.Domain.Vocabulary.{Message, Turn}
use kamiroh.Domain.TurnState.{TurnState, on_incoming, TurnProgress, TurnError}
use kamiroh.Ports.{illegal_turn_dropped}

module _ {S P : Type 0} (ports : Ports S P) where
  arrive_eq :
      (name : ActorName) (peer : Address) (t : Turn) (r : LocalRuntime S P) (a : LocalActor P)
      → get ActorName-discrete name r.actors ≡ some a
      → let (ps, refused) = hear_turn (peer_state a peer) t in
        arrive ports name peer t r ≡ (written ports name peer a ps r, ok refused)
  unfolding arrive
  arrive_eq name peer t r a h =
      bind_actor_at name r a
        (λ b.
          let (ps, refused) = hear_turn (peer_state b peer) t in
          write_actor name (write_peer b peer ps) >> pure refused)
        h

  -- The runtime once the party of an actor has been asked.
  abbrev asked :
      ActorName → LocalActor P → Option (DynParty P) → LocalRuntime S P → LocalRuntime S P
  asked name a p r = record r {
    actors = insert ActorName-discrete name (record a { party = p }) r.actors;
  }

  hand_over_eq :
      (name : ActorName) (peer : Address) (t : Turn) (r : LocalRuntime S P) (a : LocalActor P)
      → get ActorName-discrete name r.actors ≡ some a
      → let (p, reply) = ask_party ports a.party peer t in
        hand_over ports name peer t r ≡ (asked name a p r, ok reply)
  unfolding hand_over
  hand_over_eq name peer t r a h =
      bind_actor_at name r a
        (λ b.
          let (p, reply) = ask_party ports b.party peer t in
          write_actor name (record b { party = p }) >> pure reply)
        h

  -- The party that is asked, and its reply, as they are seen.
  asked-view :
      (name : ActorName) (peer : Address) (t : Turn) (r : LocalRuntime S P) (a : LocalActor P)
      → let (p, reply) = ask_party ports a.party peer t in
        (local_view name (record a { party = p }) (asked name a p r), reply)
        ≡ see_party ports.transport ports.own peer t (local_view name a r)
  unfolding ask_party
  asked-view name peer t r a = elim (Option-cases a.party) [
    | inl p ↦
        rw (p, ask_party, see_party)
          (ap (λ x. (record (local_view name a r) { party = x }, none)) (sym p))
    | inr (x, p) ↦ rw (p, ask_party, see_party) refl
  ]

  handed-Shown :
      (name : ActorName) (peer : Address) (t : Turn) (r : LocalRuntime S P) (a : LocalActor P)
      → get ActorName-discrete name r.actors ≡ some a
      → let (v', reply) = see_party ports.transport ports.own peer t (local_view name a r) in
        Shown name
          ((hand_over ports name peer t >>= answer_with ports name (address_of r name) peer) r).0
          (see_answer ports.transport ports.own peer reply v')
  handed-Shown name peer t r a h =
      let (p, reply) = ask_party ports a.party peer t in
      let a' : LocalActor P = record a { party = p } in
      let next = answer_with ports name (address_of r name) peer in
      let shown =
        answer_with-Shown ports name peer reply (asked name a p r) a'
          (get-insert_self ActorName-discrete name a' r.actors) in
      subst
        (λ x.
          Shown name ((hand_over ports name peer t >>= next) r).0
            (see_answer ports.transport ports.own peer x.1 x.0))
        (asked-view name peer t r a)
        (subst
          (λ y. Shown name (and_then y next).0 (
            see_answer ports.transport ports.own peer reply
              (local_view name a' (asked name a p r))))
          (sym (hand_over_eq name peer t r a h)) shown)

  -- An ack that is sent, whatever the transport says of it.
  acked_eq :
      (name : ActorName) (peer : Address) (m : Message) (r : LocalRuntime S P)
      → send_ack ports (address_of r name) peer (some m) r
        ≡ (record r { world = (ports.transport.send r.world (address_of r name) peer m).0 }, ok tt)
  unfolding send_ack
  acked_eq name peer m r = ap (λ y. (y.0, ok tt)) (send_eq ports (address_of r name) peer m r)

  legal-Shown :
      (name : ActorName) (peer : Address) (t : Turn) (ack : Option Message) (r : LocalRuntime S P)
      (a : LocalActor P)
      → get ActorName-discrete name r.actors ≡ some a
      → Shown name
          (after_arrival ports name (address_of r name) peer t ack none r).0
          (see_legal ports.transport ports.own peer t ack (local_view name a r))
  unfolding after_arrival send_ack
  legal-Shown name peer t none r a h = handed-Shown name peer t r a h
  legal-Shown name peer t (some m) r a h =
      let next = hand_over ports name peer t >>= answer_with ports name (address_of r name) peer in
      let w = (ports.transport.send r.world (address_of r name) peer m).0 in
      subst
        (λ y.
          Shown name (and_then y (λ _. next)).0
            (see_legal ports.transport ports.own peer t (some m) (local_view name a r)))
        (sym (acked_eq name peer m r)) (handed-Shown name peer t (record r { world = w }) a h)

  -- `hear_turn` after the machine has answered.
  abbrev heard :
      PeerState → TurnState × Result TurnProgress TurnError → PeerState × Option TurnError
  heard ps y = elim y.1 [
    | ok progress ↦ (record { state = y.0; ack_due = none; turn_due = none }, none)
    | err e ↦ (record ps { state = y.0 }, some e)
  ]

  hear_eq :
      (ps : PeerState) (t : Turn) (s : TurnState) (outcome : Result TurnProgress TurnError)
      → on_incoming ps.state t ≡ (s, outcome)
      → hear_turn ps t ≡ heard ps (s, outcome)
  unfolding hear_turn
  hear_eq ps t s outcome p = ap (heard ps) p

  arrived-Shown :
      (name : ActorName) (peer : Address) (t : Turn) (ack : Option Message) (r : LocalRuntime S P)
      (a : LocalActor P) (s : TurnState) (outcome : Result TurnProgress TurnError)
      → let (ps, refused) = heard (peer_state a peer) (s, outcome) in
        Shown name
          (after_arrival ports name
            (address_of r name)
            peer
            t
            ack
            refused
            (written ports name peer a ps r)).0
          (see_heard ports.transport ports.own peer t ack (s, outcome) (local_view name a r))
  unfolding drop_illegal emit after_arrival
  arrived-Shown name peer t ack r a s (err e) =
      let ps : PeerState = record (peer_state a peer) { state = s } in
      (
        write_peer a peer ps,
        get-insert_self ActorName-discrete name (write_peer a peer ps) r.actors,
        ap (see_event ports.transport ports.own (illegal_turn_dropped peer (address_of r name) e))
            (write_peer-view ports name peer ps a r),
      )
  arrived-Shown name peer t ack r a s (ok progress) =
      let ps : PeerState = record { state = s; ack_due = none; turn_due = none } in
      subst
        (λ v.
          Shown name
            (after_arrival ports name (address_of r name) peer t ack none
              (written ports name peer a ps r)).0
            (see_legal ports.transport ports.own peer t ack v))
        (write_peer-view ports name peer ps a r)
        (legal-Shown name peer t ack (written ports name peer a ps r) (write_peer a peer ps)
          (get-insert_self ActorName-discrete name (write_peer a peer ps) r.actors))

  -- Seen without its deadlines, an actor of a LocalRuntime does with an admitted turn exactly what
  -- a hosted actor promises, and stays installed.
  pub take_turn-Shown :
      (name : ActorName) (peer : Address) (t : Turn) (ack : Option Message) (r : LocalRuntime S P)
      (a : LocalActor P)
      → get ActorName-discrete name r.actors ≡ some a
      → Shown name
          (take_turn ports name (address_of r name) peer t ack r).0
          (see_turn ports.transport ports.own peer t ack (local_view name a r))
  unfolding take_turn
  take_turn-Shown name peer t ack r a h =
      let me = address_of r name in
      let (s, outcome) = on_incoming (peer_state a peer).state t in
      let arrived =
        arrive_eq name peer t r a h
        ∙ ap (λ y. (written ports name peer a y.0 r, ok y.1))
            (hear_eq (peer_state a peer) t s outcome refl) in
      subst
        (λ x.
          Shown name (take_turn ports name me peer t ack r).0 (
            see_heard ports.transport ports.own peer t ack (on_incoming x t) (local_view name a r)))
        (entry_or-map_values (λ (ps : PeerState). ps.state) no_exchange_yet peer a.conversations)
        (subst
          (λ y.
            Shown name (and_then y (after_arrival ports name me peer t ack)).0
              (see_heard ports.transport ports.own peer t ack (s, outcome) (local_view name a r)))
          (sym arrived) (arrived-Shown name peer t ack r a s outcome))
