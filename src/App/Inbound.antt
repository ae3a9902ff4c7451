-- ===== src/App/Inbound.antt =====
-- crates/kamiroh-app/src/inbound.rs: the one place that every delivery passes.
pub mod Gate
use mathlib.Core.Option.{map as map_option}
use kamiroh.App.Admission.{deliver, deny, admit}
use kamiroh.Domain.Vocabulary.{
  Request, Message, Ack, ack_message, request_message, Harness, harness_message, Turn, turn_message,
  request_of,
}
use kamiroh.Domain.Address.{Address}
use kamiroh.Domain.Allowlist.{Allowlist}
use kamiroh.Ports.{Delivery}
use kamiroh.Common.{Option}

pub data Inbound : Type 0 where
  denied : Inbound
  inbound_request : Request → Address → Address → Message → Inbound
  ack_received : Ack → Inbound
  inbound_harness : Harness → Address → Inbound
  inbound_turn : Turn → Address → Address → Option Message → Inbound

-- The ready-made delivery acknowledgment of a request.
abbrev ack_of : Request → Message
ack_of q = ack_message (record { id = q.id })

-- The protocol step that an admitted message calls for.
dispatch : Address → Address → Message → Inbound
dispatch from to (request_message q) = inbound_request q to from (ack_of q)
dispatch from to (ack_message a) = ack_received a
dispatch from to (harness_message h) = inbound_harness h from
dispatch from to (turn_message t) = inbound_turn t to from (map_option ack_of (request_of t))

unfoldable pub process : Allowlist → Delivery → Inbound
unfolding dispatch
process l d = elim (admit l d) [ deny ↦ denied | deliver ↦ dispatch d.from d.to d.message ]
