-- ===== src/Domain/TurnState.antt =====
-- crates/kamiroh-domain/src/protocol.rs, second part: one side's alternation machine.
pub mod Mirror
pub mod Script
pub mod Death
use kamiroh.Common.{Result, ok, err, Bool, true, false, ite}
use kamiroh.Domain.Vocabulary.{
  RequestId, RequestId-discrete, Turn, open_turn, continue_turn, close_turn,
}

pub data TurnState : Type 0 where
  idle : TurnState
  awaiting_their_turn : RequestId → TurnState
  owe_them : RequestId → TurnState
  failed : TurnState

pub data TurnProgress : Type 0 where
  continuing concluded : TurnProgress

pub data TurnError : Type 0 where
  not_our_move not_their_move wrong_response no_exchange must_answer_first : TurnError
  exchange_failed : TurnError

-- The new state, and whether an exchange was live to fail.
unfoldable pub fail : TurnState → TurnState × Bool
fail idle = (idle, false)
fail (awaiting_their_turn o) = (failed, true)
fail (owe_them o) = (failed, true)
fail failed = (failed, false)

unfoldable pub on_outgoing : TurnState → Turn → TurnState × Result TurnProgress TurnError
on_outgoing failed (open_turn q) = (awaiting_their_turn q.id, ok continuing)
on_outgoing failed t = (failed, err exchange_failed)
on_outgoing idle (open_turn q) = (awaiting_their_turn q.id, ok continuing)
on_outgoing idle t = (idle, err no_exchange)
on_outgoing (owe_them o) (continue_turn r q) =
    ite (RequestId-discrete r.id o) (awaiting_their_turn q.id, ok continuing)
      (owe_them o, err wrong_response)
on_outgoing (owe_them o) (close_turn r) =
    ite (RequestId-discrete r.id o) (idle, ok concluded) (owe_them o, err wrong_response)
on_outgoing (owe_them o) (open_turn q) = (owe_them o, err must_answer_first)
on_outgoing (awaiting_their_turn o) t = (awaiting_their_turn o, err not_our_move)

unfoldable pub on_incoming : TurnState → Turn → TurnState × Result TurnProgress TurnError
on_incoming failed (open_turn q) = (owe_them q.id, ok continuing)
on_incoming failed t = (failed, err exchange_failed)
on_incoming idle (open_turn q) = (owe_them q.id, ok continuing)
on_incoming idle t = (idle, err no_exchange)
on_incoming (awaiting_their_turn o) (continue_turn r q) =
    ite (RequestId-discrete r.id o) (owe_them q.id, ok continuing)
      (awaiting_their_turn o, err wrong_response)
on_incoming (awaiting_their_turn o) (close_turn r) =
    ite (RequestId-discrete r.id o) (idle, ok concluded) (awaiting_their_turn o, err wrong_response)
on_incoming (awaiting_their_turn o) (open_turn q) = (awaiting_their_turn o, err must_answer_first)
on_incoming (owe_them o) t = (owe_them o, err not_their_move)

-- `matches!(state, AwaitingTheirTurn { .. } | OweThem { .. })`.
unfoldable pub is_live : TurnState → Bool
is_live (awaiting_their_turn o) = true
is_live (owe_them o) = true
is_live idle = false
is_live failed = false
