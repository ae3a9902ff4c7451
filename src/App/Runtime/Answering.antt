-- ===== src/App/Runtime/Answering.antt =====
-- crates/kamiroh-app/src/runtime.rs: what becomes of a party's reply.
use kamiroh.App.Runtime.Turns.{answer_with, finish_reply, send_reply, send, peer_state}
use kamiroh.App.Runtime.Manage.{fail_exchange}
use kamiroh.App.Runtime.{
  LocalActor, LocalRuntime, Ports, PeerState, delivered, exchange_failed_step, transport_failed,
}
use kamiroh.Common.Assoc.{get}
use kamiroh.Common.{some, ok, err, true, ◌≡◌, Text, ◌+◌}
use kamiroh.Domain.TurnState.{on_outgoing, TurnState, TurnProgress, TurnError}
use mathlib.Core.Path.{ap, sym, subst, refl, ◌∙◌}
use kamiroh.Domain.Deadline.{illegal_reply, send_failed}
use kamiroh.Domain.Address.{ActorName, Address, ActorName-discrete}
use kamiroh.Domain.Vocabulary.{Turn, request_of, turn_message}
use kamiroh.App.Phone.{ack_wait_of, turn_wait_of}
use kamiroh.App.Runtime.Replies.{
  ReplyFailed, answer_eq, fail_exchange-ReplyFailed, speak_legal, speak_illegal, written,
}

module _ {S P : Type 0} (ports : Ports S P) where
  send_eq :
      (me peer : Address) (t : Turn) (r : LocalRuntime S P) {why : Text}
      → (ports.transport.send r.world me peer (turn_message t)).1 ≡ err why
      → send ports me peer (turn_message t) r ≡ (
        record r { world = (ports.transport.send r.world me peer (turn_message t)).0 },
        err (transport_failed why),
      )
  unfolding send
  send_eq me peer t r e = rw (e, send) refl

  send_refused :
      (name : ActorName) (me peer : Address) (t : Turn) (r : LocalRuntime S P) {why : Text}
      → (ports.transport.send r.world me peer (turn_message t)).1 ≡ err why
      → finish_reply ports name me peer t true r
        ≡ fail_exchange ports name peer send_failed
            (record r { world = (ports.transport.send r.world me peer (turn_message t)).0 })
  unfolding finish_reply send_reply
  send_refused name me peer t r e =
      ap
        (λ y. elim y.1 [
          | ok u ↦ (y.0, ok delivered)
          | err x ↦ fail_exchange ports name peer send_failed y.0
        ])
        (send_eq me peer t r e)

  -- A legal reply that the transport refuses to send fails its exchange: the step reports it,
  -- with the send as the cause, the observer and the party are told, and the conversation is over,
  -- with no wait left.
  pub reply_refused :
      (name : ActorName) (me peer : Address) (t : Turn) (r : LocalRuntime S P) {a : LocalActor P}
      {s : TurnState} {progress : TurnProgress} {why : Text}
      → get ActorName-discrete name r.actors ≡ some a
      → on_outgoing (peer_state a peer).state t ≡ (s, ok progress)
      → (ports.transport.send r.world me peer (turn_message t)).1 ≡ err why
      → let (r', result) = answer_with ports name me peer (some t) r in
        (result ≡ ok (exchange_failed_step peer send_failed))
        × (r'.world ≡ (ports.transport.send r.world me peer (turn_message t)).0)
        × ReplyFailed ports name peer send_failed a r r'
  reply_refused name me peer t r {a} {s} {progress} h k e =
      let now = ports.timer.now r.world in
      let ps = peer_state a peer in
      let said : PeerState = record {
        state = s;
        ack_due = ack_wait_of (request_of t) (now + a.deadlines.ack);
        turn_due = turn_wait_of progress (now + a.deadlines.turn);
      } in
      let r1 = written ports name peer a said r in
      subst
        (λ y.
          (y.1 ≡ ok (exchange_failed_step peer send_failed))
          × (y.0.world ≡ (ports.transport.send r.world me peer (turn_message t)).0)
          × ReplyFailed ports name peer send_failed a r y.0)
        (sym (
          answer_eq ports name me peer t r h (speak_legal a.deadlines now ps t k)
          ∙ send_refused name me peer t r1 e))
        (fail_exchange-ReplyFailed ports name peer send_failed a said r _)

  -- A reply that the turn rules refuse is not sent, and nothing else is: its exchange fails, with the
  -- illegal reply as the cause, the observer and the party are told, and the conversation is over,
  -- with no wait left.
  pub reply_illegal :
      (name : ActorName) (me peer : Address) (t : Turn) (r : LocalRuntime S P) {a : LocalActor P}
      {s : TurnState} {e : TurnError}
      → get ActorName-discrete name r.actors ≡ some a
      → on_outgoing (peer_state a peer).state t ≡ (s, err e)
      → let (r', result) = answer_with ports name me peer (some t) r in
        (result ≡ ok (exchange_failed_step peer illegal_reply))
        × (r'.world ≡ r.world)
        × ReplyFailed ports name peer illegal_reply a r r'
  unfolding finish_reply
  reply_illegal name me peer t r {a} h k =
      let now = ports.timer.now r.world in
      let ps = peer_state a peer in
      subst
        (λ y.
          (y.1 ≡ ok (exchange_failed_step peer illegal_reply))
          × (y.0.world ≡ r.world)
          × ReplyFailed ports name peer illegal_reply a r y.0)
        (sym (answer_eq ports name me peer t r h (speak_illegal a.deadlines now ps t k)))
        (fail_exchange-ReplyFailed ports name peer illegal_reply a _ r r.world)
