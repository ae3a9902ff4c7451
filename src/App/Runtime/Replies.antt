-- ===== src/App/Runtime/Replies.antt =====
-- crates/kamiroh-app/src/runtime.rs: a reply that arms its waits, and one whose exchange fails.
use kamiroh.App.Runtime.Turns.{answer_with, arm, finish_reply, speak_turn, peer_state, write_peer}
use kamiroh.App.Runtime.Manage.{failed_actor, failed_peer, fail_exchange}
use kamiroh.App.Runtime.{
  LocalActor, LocalRuntime, Ports, PeerState, exchange_failed_step, write_actor, address_of, ◌>>◌,
  pure,
}
use kamiroh.App.Runtime.Failing.{and_then, bind_actor_at, fail_exchange_eq}
use kamiroh.App.Parties.{on_exchange_failed_boxed, put}
use kamiroh.Common.Assoc.{get, insert, get-insert_self, get-modify}
use kamiroh.Common.{
  [], ◌∷◌, some, ok, err, true, false, none, ◌≡◌, arith, ℕ, Bool, ◌++◌, if_pos, ◌+◌, Result,
}
use kamiroh.Domain.TurnState.{on_outgoing, fail, is_live, TurnState, TurnProgress, TurnError}
use kamiroh.Ports.{exchange_failed_event}
use mathlib.Core.Option
use mathlib.Core.Path.{ap, sym, subst, refl, ◌∙◌}
use kamiroh.Domain.Deadline.{Deadlines, FailureCause}
use kamiroh.Domain.Address.{ActorName, Address, ActorName-discrete, Address-discrete}
use kamiroh.Domain.Vocabulary.{Turn, request_of}
use kamiroh.App.Phone.{ack_wait_of, turn_wait_of}

failed_peer_dead : (ps : PeerState) → is_live (failed_peer ps).state ≡ false
unfolding failed_peer fail is_live
failed_peer_dead ps = ground arith

no_ack_failed : (ps : PeerState) → (failed_peer ps).ack_due ≡ none
unfolding failed_peer
no_ack_failed ps = refl

no_turn_failed : (ps : PeerState) → (failed_peer ps).turn_due ≡ none
unfolding failed_peer
no_turn_failed ps = refl

-- `speak_turn` after the machine has answered.
abbrev pub spoken :
    Deadlines → ℕ → PeerState → Turn → TurnState × Result TurnProgress TurnError → PeerState × Bool
spoken d now ps t y = elim y.1 [
  | ok progress ↦ (
    record {
      state = y.0;
      ack_due = ack_wait_of (request_of t) (now + d.ack);
      turn_due = turn_wait_of progress (now + d.turn);
    },
    true,
  )
  | err e ↦ (record ps { state = y.0 }, false)
]

pub speak_legal :
    (d : Deadlines) (now : ℕ) (ps : PeerState) (t : Turn) {s : TurnState} {progress : TurnProgress}
    → on_outgoing ps.state t ≡ (s, ok progress)
    → speak_turn d now ps t ≡ (
      record {
        state = s;
        ack_due = ack_wait_of (request_of t) (now + d.ack);
        turn_due = turn_wait_of progress (now + d.turn);
      },
      true,
    )
unfolding speak_turn
speak_legal d now ps t h = ap (spoken d now ps t) h

pub speak_illegal :
    (d : Deadlines) (now : ℕ) (ps : PeerState) (t : Turn) {s : TurnState} {e : TurnError}
    → on_outgoing ps.state t ≡ (s, err e)
    → speak_turn d now ps t ≡ (record ps { state = s }, false)
unfolding speak_turn
speak_illegal d now ps t h = ap (spoken d now ps t) h

module _ {S P : Type 0} (ports : Ports S P) where
  -- The exchange with a peer has failed: the observer and the party are told, and the
  -- conversation is over, with no wait left.
  pub record ReplyFailed (name : ActorName) (peer : Address) (cause : FailureCause)
      (a : LocalActor P) (r r' : LocalRuntime S P) : Type 0 where
    pub told :
        r'.observer
        ≡ Option.map
            (λ log. log ++ exchange_failed_event (address_of r name) peer cause ∷ [])
            r.observer
    pub after : LocalActor P
    pub installed : get ActorName-discrete name r'.actors ≡ some after
    pub party_told :
        after.party ≡ Option.map (λ p. on_exchange_failed_boxed ports.own p peer cause) a.party
    pub conversation : PeerState
    pub held : get Address-discrete peer after.conversations ≡ some conversation
    pub not_live : is_live conversation.state ≡ false
    pub no_ack_due : conversation.ack_due ≡ none
    pub no_turn_due : conversation.turn_due ≡ none

  -- The runtime with what is written to the conversation with a peer.
  abbrev pub written :
      ActorName → Address → LocalActor P → PeerState → LocalRuntime S P → LocalRuntime S P
  written name peer a ps r = record r {
    actors = insert ActorName-discrete name (write_peer a peer ps) r.actors;
  }

  arm_eq :
      (name : ActorName) (peer : Address) (t : Turn) (r : LocalRuntime S P) {a : LocalActor P}
      → get ActorName-discrete name r.actors ≡ some a
      → let said = speak_turn a.deadlines (ports.timer.now r.world) (peer_state a peer) t in
        arm ports name peer t r ≡ (written name peer a said.0 r, ok said.1)
  unfolding arm
  arm_eq name peer t r {a} h =
      bind_actor_at name r a
        (λ b.
          let said = speak_turn b.deadlines (ports.timer.now r.world) (peer_state b peer) t in
          write_actor name (write_peer b peer said.0) >> pure said.1)
        h

  pub answer_eq :
      (name : ActorName) (me peer : Address) (t : Turn) (r : LocalRuntime S P) {a : LocalActor P}
      {ps : PeerState} {sendable : Bool}
      → get ActorName-discrete name r.actors ≡ some a
      → speak_turn a.deadlines (ports.timer.now r.world) (peer_state a peer) t ≡ (ps, sendable)
      → answer_with ports name me peer (some t) r
        ≡ finish_reply ports name me peer t sendable (written name peer a ps r)
  unfolding answer_with
  answer_eq name me peer t r {a} h k =
      ap (λ y. and_then y (finish_reply ports name me peer t)) (arm_eq name peer t r h)
      ∙ ap (λ said. finish_reply ports name me peer t said.1 (written name peer a said.0 r)) k

  party_lem :
      (b : LocalActor P) (p : Address) (c : FailureCause)
      → (failed_actor ports b p c).party
        ≡ Option.map (λ q. on_exchange_failed_boxed ports.own q p c) b.party
  unfolding failed_actor
  party_lem b p c = refl

  held_lem :
      (b : LocalActor P) (p : Address) (c : FailureCause) (qs : PeerState)
      → get Address-discrete p (failed_actor ports (write_peer b p qs) p c).conversations
        ≡ some (failed_peer qs)
  unfolding failed_actor
  held_lem b p c qs =
      get-modify Address-discrete p p failed_peer (put p qs b.conversations)
      ∙ if_pos (Address-discrete p p) refl _ _
      ∙ ap (Option.map failed_peer) (get-insert_self Address-discrete p qs b.conversations)

  pub fail_exchange-ReplyFailed :
      (name : ActorName) (peer : Address) (cause : FailureCause) (a : LocalActor P) (ps : PeerState)
      (r : LocalRuntime S P) (w : S)
      → let y =
          fail_exchange ports name peer cause (record (written name peer a ps r) { world = w }) in
        (y.1 ≡ ok (exchange_failed_step peer cause))
        × (y.0.world ≡ w)
        × ReplyFailed name peer cause a r y.0
  fail_exchange-ReplyFailed name peer cause a ps r w =
      let a1 = write_peer a peer ps in
      let r1 = record (written name peer a ps r) { world = w } in
      subst
        (λ y.
          (y.1 ≡ ok (exchange_failed_step peer cause))
          × (y.0.world ≡ w)
          × ReplyFailed name peer cause a r y.0)
        (sym (
          fail_exchange_eq ports name peer cause r1
            (get-insert_self ActorName-discrete name a1 r.actors)))
        (
          refl,
          refl,
          record {
            told = refl;
            after = failed_actor ports a1 peer cause;
            installed =
                get-insert_self ActorName-discrete name (failed_actor ports a1 peer cause)
                  r1.actors;
            party_told = party_lem a1 peer cause;
            conversation = failed_peer ps;
            held = held_lem a peer cause ps;
            not_live = failed_peer_dead ps;
            no_ack_due = no_ack_failed ps;
            no_turn_due = no_turn_failed ps;
          },
        )
