-- ===== src/App/Echoed.antt =====
-- crates/kamiroh-app/src: an exchange with a hosted echo party.
use kamiroh.App.Exchanging.{
  see_turn, View, see_legal, see_state, see_answer, see_reply, see_failure,
}
use kamiroh.Common.{some, ok, false, ◌≡◌, arith, err, Result, ap, ◌∙◌}
use kamiroh.Ports.{Transport, Party}
use kamiroh.Domain.Address.{Address}
use kamiroh.App.Parties.{
  on_turn_boxed, echo_on_turn, entry_or, EchoParty, echo, echo_of, entry_or-put,
}
use kamiroh.Domain.TurnState.{
  on_outgoing, on_incoming, is_live, owe_them, TurnState, idle, continuing, concluded, TurnProgress,
  TurnError,
}
use kamiroh.Domain.Vocabulary.{Request, Turn, Message, request_of, turn_message, open_turn}
use kamiroh.Domain.Deadline.{illegal_reply}

module _ {S P : Type 0} (net : Transport S) (own : Party P) where
  see_reply-world :
      (peer : Address) (t : Turn) (v : View S P)
      → (see_reply net own peer t v).world ≡ (net.send v.world v.address peer (turn_message t)).0
  see_reply-world peer t v = ground arith

  echoed :
      (e : EchoParty) (peer : Address) (q : Request)
      → is_live (entry_or peer idle e.states) ≡ false
      → (on_turn_boxed own (echo e) peer (open_turn q)).1 ≡ some (echo_of q)
  unfolding on_turn_boxed echo_on_turn on_incoming on_outgoing request_of is_live
  echoed e peer q h = ground arith

  opened_by :
      (s : TurnState) (q : Request)
      → is_live s ≡ false
      → on_incoming s (open_turn q) ≡ (owe_them q.id, ok continuing)
  unfolding on_incoming is_live
  opened_by s q h = ground arith

  closes : (q : Request) → on_outgoing (owe_them q.id) (echo_of q) ≡ (idle, ok concluded)
  unfolding on_outgoing
  closes q = ground arith

  spoken_world :
      (peer : Address) (t : Turn) (spoken : TurnState × Result TurnProgress TurnError)
      (v : View S P) {progress : TurnProgress}
      → spoken.1 ≡ ok progress
      → let after : View S P = elim spoken.1 [
        | err e ↦ see_failure net own peer illegal_reply (see_state net own peer spoken.0 v)
        | ok progress ↦ see_reply net own peer t (see_state net own peer spoken.0 v)
      ] in
        after.world ≡ (net.send v.world v.address peer (turn_message t)).0
  spoken_world peer t spoken v h = rw h (see_reply-world peer t (see_state net own peer spoken.0 v))

  answered_world :
      (peer : Address) (q : Request) (v : View S P)
      → entry_or peer idle v.states ≡ owe_them q.id
      → (see_answer net own peer (some (echo_of q)) v).world
        ≡ (net.send v.world v.address peer (turn_message (echo_of q))).0
  answered_world peer q v h =
      spoken_world peer (echo_of q) (on_outgoing (entry_or peer idle v.states) (echo_of q)) v
        (ap (λ s. (on_outgoing s (echo_of q)).1) h ∙ ap (λ y. y.1) (closes q))

  legal_world :
      (peer : Address) (q : Request) (ack : Message) (v : View S P) (e : EchoParty)
      → v.party ≡ some (echo e)
      → entry_or peer idle v.states ≡ owe_them q.id
      → is_live (entry_or peer idle e.states) ≡ false
      → (see_legal net own peer (open_turn q) (some ack) v).world
        ≡ (net.send
            (net.send v.world v.address peer ack).0
            v.address
            peer
            (turn_message (echo_of q))).0
  legal_world peer q ack v e h k l =
      let acked = record v {
        world = (net.send v.world v.address peer ack).0;
        party = some (on_turn_boxed own (echo e) peer (open_turn q)).0;
      } in
      rw (h, echoed e peer q l) (answered_world peer q acked k)

  pub see_turn-echo :
      (peer : Address) (q : Request) (ack : Message) (v : View S P) (e : EchoParty)
      → v.party ≡ some (echo e)
      → is_live (entry_or peer idle v.states) ≡ false
      → is_live (entry_or peer idle e.states) ≡ false
      → (see_turn net own peer (open_turn q) (some ack) v).world
        ≡ (net.send
            (net.send v.world v.address peer ack).0
            v.address
            peer
            (turn_message (echo_of q))).0
  see_turn-echo peer q ack v e h k l = rw (opened_by (entry_or peer idle v.states) q k) (
      legal_world peer q ack (see_state net own peer (owe_them q.id) v) e h
        (entry_or-put peer idle (owe_them q.id) v.states) l)
