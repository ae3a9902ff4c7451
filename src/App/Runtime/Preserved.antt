-- ===== src/App/Runtime/Preserved.antt =====
-- crates/kamiroh-app/src/runtime.rs: the methods, and the waits of every conversation.
use kamiroh.Common.Assoc.{get, AllEntries-insert, contains_key}
use kamiroh.Domain.Allowlist.{admit as admit_endpoint, revoke as revoke_endpoint, Allowlist}
use kamiroh.App.Runtime.Manage.{
  admit, revoke, fail_exchange, fail_exchanges, failed_actor, install_inner, sweep, sweep_dead,
  failed_peer, tell_failed, affected,
}
use kamiroh.App.Runtime.Turns.{
  send, arm, arrive, hand_over, send_ack, answer_with, send_reply, take_turn, peer_state,
  write_peer, hear_turn, speak_turn, after_arrival, ask_party, finish_reply, drop_illegal,
}
use kamiroh.Common.{
  [], ◌∷◌, none, some, inl, inr, List, Option, Option-cases, true, false, arith, Result-cases,
  Bool-cases, keep, same, length, Bool,
}
use kamiroh.App.Runtime.{Ports, LocalActor, emit, ActorKind, address_of, delivered, peer_vanished}
use kamiroh.Domain.Address.{ActorName, Address, EndpointId, ActorName-discrete, EndpointId-discrete}
use kamiroh.App.Runtime.Invariant.{
  Keeps, Anything, >>=-Keeps, ActorArmed, modify-AllArmed, actor_at-Keeps, failed_peer-PeerArmed,
  write_actor-Keeps, put-AllArmed, hear_turn-PeerArmed, pure-Keeps, speak_turn-PeerArmed,
  peer_state-PeerArmed,
}
use kamiroh.Domain.Vocabulary.{Message, Turn, turn_message}
use kamiroh.Domain.Deadline.{
  Deadlines, FailureCause, disconnected, revoked, illegal_reply, send_failed,
}
use kamiroh.App.Parties.{DynParty}
use kamiroh.Domain.TurnState.{TurnError}

module _ {S P : Type 0} (ports : Ports S P) where
  pub install_inner-Keeps :
      (name : ActorName) (l : Allowlist) (d : Deadlines) (k : ActorKind) (p : Option (DynParty P))
      → Keeps (install_inner ports name l d k p) Anything
  unfolding install_inner
  install_inner-Keeps name l d k p = record {
    at = λ r i.
        let fresh =
          AllEntries-insert ActorName-discrete (λ _ x. ActorArmed x) name
            (record { allowlist = l; kind = k; deadlines = d; party = p; conversations = [] })
            r.actors tt i in
        elim (Bool-cases (contains_key ActorName-discrete name r.actors)) [
          | inl used ↦ rw used (i, tt)
          | inr free ↦ elim (Result-cases (ports.registry.bind r.world (address_of r name)).1) [
            | inl (u, e) ↦ rw (free, e) (fresh, tt)
            | inr (why, e) ↦ rw (free, e) (i, tt)
          ]
        ];
  }

  pub admit-Keeps : (name : ActorName) (e : EndpointId) → Keeps (admit ports name e) Anything
  unfolding admit
  admit-Keeps name e =
      >>=-Keeps (actor_at-Keeps name)
        (λ a k. write_actor-Keeps name (record a { allowlist = admit_endpoint a.allowlist e }) k)

  failed_actor-ActorArmed :
      (a : LocalActor P) (peer : Address) (cause : FailureCause)
      → ActorArmed a
      → ActorArmed (failed_actor ports a peer cause)
  unfolding failed_actor
  failed_actor-ActorArmed a peer cause k =
      modify-AllArmed peer failed_peer a.conversations failed_peer-PeerArmed k

  tell_failed-Keeps :
      (name : ActorName) (peer : Address) (cause : FailureCause)
      → Keeps (tell_failed ports name peer cause) Anything
  unfolding tell_failed emit
  tell_failed-Keeps name peer cause = record { at = λ r i. (i, tt) }

  pub fail_exchange-Keeps :
      (name : ActorName) (peer : Address) (cause : FailureCause)
      → Keeps (fail_exchange ports name peer cause) Anything
  unfolding fail_exchange
  fail_exchange-Keeps name peer cause = >>=-Keeps (actor_at-Keeps name) (λ a k.
      >>=-Keeps
        (write_actor-Keeps name (failed_actor ports a peer cause)
          (failed_actor-ActorArmed a peer cause k))
        (λ _ _. tell_failed-Keeps name peer cause))

  fail_exchanges-Keeps :
      (name : ActorName) (peers : List Address) (cause : FailureCause)
      → Keeps (fail_exchanges ports name peers cause) Anything
  unfolding fail_exchanges
  fail_exchanges-Keeps name [] cause = pure-Keeps tt Anything tt
  fail_exchanges-Keeps name (peer ∷ peers) cause =
      >>=-Keeps (fail_exchange-Keeps name peer cause) (λ _ _. fail_exchanges-Keeps name peers cause)

  pub revoke-Keeps : (name : ActorName) (e : EndpointId) → Keeps (revoke ports name e) Anything
  unfolding revoke
  revoke-Keeps name e = >>=-Keeps (actor_at-Keeps name) (λ a k.
      let peers = affected (λ x. same EndpointId-discrete x e) a.conversations in
      >>=-Keeps (write_actor-Keeps name (record a { allowlist = revoke_endpoint a.allowlist e }) k)
        (λ _ _.
          >>=-Keeps (fail_exchanges-Keeps name peers revoked)
            (λ _ _. pure-Keeps (length peers) Anything tt)))

  sweep-Keeps : (name : ActorName) (peers : List Address) → Keeps (sweep ports name peers) Anything
  unfolding sweep
  sweep-Keeps name [] = pure-Keeps none Anything tt
  sweep-Keeps name (first ∷ rest) =
      let peers = keep (λ x. same EndpointId-discrete x.endpoint first.endpoint) (first ∷ rest) in
      >>=-Keeps (fail_exchanges-Keeps name peers disconnected)
        (λ _ _. pure-Keeps (some (peer_vanished first.endpoint (length peers))) Anything tt)

  pub sweep_dead-Keeps : (name : ActorName) → Keeps (sweep_dead ports name) Anything
  unfolding sweep_dead
  sweep_dead-Keeps name = record {
    at = λ r i. elim (Option-cases (get ActorName-discrete name r.actors)) [
      | inl e ↦ rw (e, sweep_dead) (i, tt)
      | inr (a, e) ↦ rw (e, sweep_dead) ((sweep-Keeps name _).at r i)
    ];
  }

  pub send-Keeps : (from to : Address) (m : Message) → Keeps (send ports from to m) Anything
  unfolding send
  send-Keeps from to m = record { at = λ r i. ground arith }

  send_ack-Keeps :
      (from to : Address) (ack : Option Message) → Keeps (send_ack ports from to ack) Anything
  unfolding send_ack
  send_ack-Keeps from to none = record { at = λ r i. (i, tt) }
  send_ack-Keeps from to (some ack) = record {
    at = λ r i. (((send-Keeps from to ack).at r i).0, tt);
  }

  arrive-Keeps :
      (name : ActorName) (peer : Address) (t : Turn) → Keeps (arrive ports name peer t) Anything
  unfolding arrive
  arrive-Keeps name peer t = >>=-Keeps (actor_at-Keeps name) (λ a k.
      let ps = peer_state a peer in
      >>=-Keeps
        (write_actor-Keeps name (write_peer a peer (hear_turn ps t).0) (
          put-AllArmed peer (hear_turn ps t).0 a.conversations
            (hear_turn-PeerArmed ps t (peer_state-PeerArmed peer a.conversations k)) k))
        (λ _ _. pure-Keeps (hear_turn ps t).1 Anything tt))

  hand_over-Keeps :
      (name : ActorName) (peer : Address) (t : Turn) → Keeps (hand_over ports name peer t) Anything
  unfolding hand_over
  hand_over-Keeps name peer t = >>=-Keeps (actor_at-Keeps name) (λ a k.
      let asked = ask_party ports a.party peer t in
      >>=-Keeps (write_actor-Keeps name (record a { party = asked.0 }) k)
        (λ _ _. pure-Keeps asked.1 Anything tt))

  arm-Keeps :
      (name : ActorName) (peer : Address) (t : Turn) → Keeps (arm ports name peer t) Anything
  unfolding arm
  arm-Keeps name peer t = record {
    at = λ r.
        (>>=-Keeps (actor_at-Keeps name) (λ a k.
            let ps = peer_state a peer in
            let now = ports.timer.now r.world in
            >>=-Keeps
              (write_actor-Keeps name (write_peer a peer (speak_turn a.deadlines now ps t).0) (
                put-AllArmed peer (speak_turn a.deadlines now ps t).0 a.conversations
                  (speak_turn-PeerArmed a.deadlines now ps t
                    (peer_state-PeerArmed peer a.conversations k))
                  k))
              (λ _ _. pure-Keeps (speak_turn a.deadlines now ps t).1 Anything tt))).at
          r;
  }

  send_reply-Keeps :
      (name : ActorName) (me peer : Address) (t : Turn)
      → Keeps (send_reply ports name me peer t) Anything
  unfolding send_reply
  send_reply-Keeps name me peer t = record {
    at = λ r i.
        let sent = ((send-Keeps me peer (turn_message t)).at r i).0 in
        elim (Result-cases (send ports me peer (turn_message t) r).1) [
          | inl (u, e) ↦ rw (e, send_reply) (sent, tt)
          | inr (why, e) ↦
              rw (e, send_reply) ((fail_exchange-Keeps name peer send_failed).at _ sent)
        ];
  }

  finish_reply-Keeps :
      (name : ActorName) (me peer : Address) (t : Turn) (sendable : Bool)
      → Keeps (finish_reply ports name me peer t sendable) Anything
  unfolding finish_reply
  finish_reply-Keeps name me peer t false = fail_exchange-Keeps name peer illegal_reply
  finish_reply-Keeps name me peer t true = send_reply-Keeps name me peer t

  answer_with-Keeps :
      (name : ActorName) (me peer : Address) (reply : Option Turn)
      → Keeps (answer_with ports name me peer reply) Anything
  unfolding answer_with
  answer_with-Keeps name me peer none = pure-Keeps delivered Anything tt
  answer_with-Keeps name me peer (some t) =
      >>=-Keeps (arm-Keeps name peer t) (λ sendable _. finish_reply-Keeps name me peer t sendable)

  after_arrival-Keeps :
      (name : ActorName) (me peer : Address) (t : Turn) (ack : Option Message)
      (refused : Option TurnError)
      → Keeps (after_arrival ports name me peer t ack refused) Anything
  unfolding after_arrival drop_illegal emit
  after_arrival-Keeps name me peer t ack (some e) = record { at = λ r i. (i, tt) }
  after_arrival-Keeps name me peer t ack none = >>=-Keeps (send_ack-Keeps me peer ack) (λ _ _.
      >>=-Keeps (hand_over-Keeps name peer t) (λ reply _. answer_with-Keeps name me peer reply))

  pub take_turn-Keeps :
      (name : ActorName) (me peer : Address) (t : Turn) (ack : Option Message)
      → Keeps (take_turn ports name me peer t ack) Anything
  unfolding take_turn
  take_turn-Keeps name me peer t ack =
      >>=-Keeps (arrive-Keeps name peer t)
        (λ refused _. after_arrival-Keeps name me peer t ack refused)
