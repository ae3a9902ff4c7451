-- ===== src/App/Conversation.antt =====
-- crates/kamiroh-app/src/conversation.rs: one exchange at a time, on the side that opens.
pub mod Sequential
use kamiroh.Domain.Address.{Address}
use kamiroh.Domain.Vocabulary.{Message}
use kamiroh.Common.{Option, Result, none, cond, err, not, some, is_some, ok}
use kamiroh.Domain.Protocol.{completes, opens}

pub record Conversation : Type 0 where
  pub peer : Address
  pub in_flight : Option Message

pub data ExchangeError : Type 0 where
  not_an_opening already_in_flight nothing_in_flight wrong_reply : ExchangeError

unfoldable pub new : Address → Conversation
new peer = record { peer = peer; in_flight = none }

unfoldable pub begin : Conversation → Message → Conversation × Result (Unit {0}) ExchangeError
begin c m =
    cond (not (opens m)) (c, err not_an_opening)
      (cond (is_some c.in_flight) (c, err already_in_flight)
        (record c { in_flight = some m }, ok tt))

unfoldable pub conclude : Conversation → Message → Conversation × Result (Unit {0}) ExchangeError
conclude c r = elim c.in_flight [
  | none ↦ (c, err nothing_in_flight)
  | some opening ↦
      cond (not (completes opening r)) (c, err wrong_reply) (record c { in_flight = none }, ok tt)
]
