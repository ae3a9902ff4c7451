-- ===== src/Ports.antt =====
-- crates/kamiroh-ports/src/lib.rs: the traits that the core speaks through, as records of
-- operations over one world state `S`. The handles of the source share one network, one clock
-- and one set of watches behind `Arc<Mutex<…>>`; here each operation takes that state and returns
-- the new one. A port's error is carried as the text that `to_string` gives.
use kamiroh.Common.{Option, Text, ℕ, Bool, Result, codes, List}
use kamiroh.Domain.Address.{Address, EndpointId, ActorName}
use kamiroh.Domain.Vocabulary.{Message, Turn, Request}
use kamiroh.Domain.Deadline.{FailureCause}
use kamiroh.Domain.TurnState.{TurnError}

-- `std::task::Poll`.
pub data Poll (A : Type 0) : Type 0 where
  pending : Poll A
  ready : A → Poll A

-- The claimed sender name on a batch receipt.
abbrev pub batch_receipt_name : Text
batch_receipt_name = codes "mailroom"

unfoldable pub batch_receipt_sender : EndpointId → Address
batch_receipt_sender e = record { endpoint = e; name = record { name = batch_receipt_name } }

pub record Delivery : Type 0 where
  pub from : Address
  pub to : Address
  pub message : Message

pub record Transport (S : Type 0) : Type 0 where
  pub send : S → Address → Address → Message → S × Result (Unit {0}) Text
  pub open_many : S → Address → EndpointId → List ActorName → Request → S × Result (Unit {0}) Text

-- `bind`, and the unbinding that dropping the returned inbox does.
pub record Registry (S : Type 0) : Type 0 where
  pub bind : S → Address → S × Result (Unit {0}) Text
  pub unbind : S → Address → S

-- One poll of the future `next` of the inbox bound at an address.
pub record Inbox (S : Type 0) : Type 0 where
  pub poll_next : S → Address → S × Poll (Option Delivery)

-- An instant is a number of nanoseconds. `poll_sleep` is one poll of `sleep_until`: whether the
-- clock has reached the instant.
pub record Timer (S : Type 0) : Type 0 where
  pub now : S → ℕ
  pub poll_sleep : S → ℕ → S × Bool

-- One poll of `next_death`.
pub record DeathWatch (S : Type 0) : Type 0 where
  pub poll_death : S → S × Poll (Option EndpointId)

pub record Party (P : Type 0) : Type 0 where
  pub on_turn : P → Address → Turn → P × Option Turn
  pub on_exchange_failed : P → Address → FailureCause → P

pub data Event : Type 0 where
  exchange_failed_event : Address → Address → FailureCause → Event
  delivery_denied : Address → Address → Event
  illegal_turn_dropped : Address → Address → TurnError → Event
