-- ===== src/Domain/Vocabulary.antt =====
-- crates/kamiroh-domain/src/vocabulary.rs: the closed set of messages.
use kamiroh.Common.{ℕ, List, Text, Text-discrete, Option, some, none}
use kamiroh.Domain.Address.{ActorName}

-- Sixteen bytes.
pub record RequestId : Type 0 where
  pub bytes : List ℕ

unfoldable pub RequestId-discrete : Discrete RequestId
RequestId-discrete = hlevel Text-discrete

pub record Request : Type 0 where
  pub id : RequestId
  pub body : List ℕ

pub record Ack : Type 0 where
  pub id : RequestId

pub data Harness : Type 0 where
  spawn spawned stop stopped : ActorName → Harness
  ping pong : Harness
  failed : Text → Harness

pub record Response : Type 0 where
  pub id : RequestId
  pub body : List ℕ

pub data Turn : Type 0 where
  open_turn : Request → Turn
  continue_turn : Response → Request → Turn
  close_turn : Response → Turn

-- `Turn::response` and `Turn::request`.
unfoldable pub response_of : Turn → Option Response
response_of (open_turn q) = none
response_of (continue_turn r q) = some r
response_of (close_turn r) = some r

unfoldable pub request_of : Turn → Option Request
request_of (open_turn q) = some q
request_of (continue_turn r q) = some q
request_of (close_turn r) = none

pub data Message : Type 0 where
  request_message : Request → Message
  ack_message : Ack → Message
  harness_message : Harness → Message
  turn_message : Turn → Message
