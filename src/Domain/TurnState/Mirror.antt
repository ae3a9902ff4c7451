-- ===== src/Domain/TurnState/Mirror.antt =====
-- crates/kamiroh-domain/src/protocol.rs: the two ends of a conversation.
use kamiroh.Common.{◌≡◌, refl, Result, ok, err, arith}
use kamiroh.Domain.Vocabulary.{Turn, open_turn}
use kamiroh.Domain.TurnState.{
  TurnState, idle, awaiting_their_turn, owe_them, failed, TurnProgress, TurnError, not_our_move,
  not_their_move, on_outgoing, on_incoming,
}

-- The peer's state, and the peer's word for an error.
abbrev pub mirror : TurnState → TurnState
mirror idle = idle
mirror (awaiting_their_turn o) = owe_them o
mirror (owe_them o) = awaiting_their_turn o
mirror failed = failed

abbrev pub mirror_error : TurnError → TurnError
mirror_error not_our_move = not_their_move
mirror_error not_their_move = not_our_move
mirror_error e = e

abbrev pub mirror_outcome :
    TurnState × Result TurnProgress TurnError → TurnState × Result TurnProgress TurnError
mirror_outcome (s, ok p) = (mirror s, ok p)
mirror_outcome (s, err e) = (mirror s, err (mirror_error e))

-- Whatever one side's machine says of sending a turn, the peer's machine in the mirrored state
-- says of receiving it: the same progress, the mirrored error, and again the mirrored state.
pub on_incoming-mirror :
    (s : TurnState) (t : Turn) → on_incoming (mirror s) t ≡ mirror_outcome (on_outgoing s t)
unfolding on_incoming on_outgoing
on_incoming-mirror idle (open_turn q) = refl
on_incoming-mirror _ t = ground arith
