-- ===== src/App/Phone/Asking.antt =====
-- crates/kamiroh-app/src/phone.rs: an exchange of one round, at the side that opens it.
use kamiroh.Common.{none, some, ok, true, false, ℕ, ◌+◌, ◌≡◌, arith}
use kamiroh.App.Phone.{Phone, note_ack, open_exchange, on_incoming, send_turn, concluded}
use kamiroh.Domain.Vocabulary.{Request, request_of, turn_message, open_turn, Response, close_turn}
use kamiroh.Domain.TurnState.{on_incoming as turn_in, idle}
use kamiroh.Domain.TurnState.{on_outgoing, awaiting_their_turn, is_live}
use kamiroh.Ports.{Transport, Timer}

-- The phone once its opening is out at the instant `at`.
abbrev pub asked : Phone → Request → ℕ → Phone
asked p q at = record p {
  state = awaiting_their_turn q.id;
  ack_due = some (q.id, at + p.deadlines.ack);
  turn_due = some (at + p.deadlines.turn);
}

pub open_exchange-sent :
    {S : Type 0} (net : Transport S) (timer : Timer S) (w w' : S) (p : Phone) (q : Request)
    → is_live p.state ≡ false
    → net.send w p.self_address p.peer (turn_message (open_turn q)) ≡ (w', ok tt)
    → open_exchange net timer w p q ≡ (w', asked p q (timer.now w'), ok tt)
unfolding open_exchange send_turn on_outgoing is_live request_of
open_exchange-sent net timer w w' p q h k = ground arith

-- The ack of the opening and a closing turn that answers it, in that order.
pub asked_answered :
    (p : Phone) (q : Request) (r : Response) (at : ℕ)
    → r.id ≡ q.id
    → let (p', fits) = note_ack (asked p q at) (record { id = q.id }) in
      let (p'', outcome) = on_incoming p' (close_turn r) in
      (fits ≡ true)
      × (outcome ≡ ok concluded)
      × (p''.state ≡ idle)
      × (p''.turn_due ≡ none)
      × (p''.ack_due ≡ none)
unfolding note_ack on_incoming turn_in
asked_answered p q r at h = ground arith
