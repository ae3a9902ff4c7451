-- ===== src/App/Inbound/Gate.antt =====
-- crates/kamiroh-app/src/inbound.rs: who gets in, and what is acknowledged.
use kamiroh.App.Inbound.{denied, Inbound, process, inbound_request, inbound_turn}
use kamiroh.App.Admission.{admit}
use kamiroh.Common.{none, some, true, false, ◌≡◌, ◌↔◌, arith, Option}
use kamiroh.Domain.Allowlist.{allows, Allowlist}
use kamiroh.Domain.Vocabulary.{
  open_turn, continue_turn, Message, Request, request_of, ack_message, request_message,
  turn_message,
}
use kamiroh.Domain.Address.{Address}
use kamiroh.Ports.{Delivery}

-- A delivery is denied exactly when its proven endpoint is not on the allowlist. The claimed
-- name and the message play no part.
pub process_denied_iff :
    (l : Allowlist) (d : Delivery) → (process l d ≡ denied) ↔ (allows l d.from.endpoint ≡ false)
unfolding process admit
process_denied_iff l d = (λ h. ground arith, λ h. ground arith)

-- The request that a message poses to the actor that it reaches.
unfoldable pub posed : Message → Option Request
posed (request_message q) = some q
posed (turn_message (open_turn q)) = some q
posed (turn_message (continue_turn r q)) = some q
posed _ = none

-- The acknowledgment that a processed delivery asks for, and its addressee.
unfoldable pub acknowledged : Inbound → Option (Message × Address)
acknowledged (inbound_request q to peer ack) = some (ack, peer)
acknowledged (inbound_turn t to peer (some ack)) = some (ack, peer)
acknowledged _ = none

unfoldable pub expected_ack : Option Request → Address → Option (Message × Address)
expected_ack none peer = none
expected_ack (some q) peer = some (ack_message (record { id = q.id }), peer)

-- An admitted delivery is acknowledged exactly when it poses a request, by an ack that carries
-- the request's id, to the address that the delivery came from.
pub process_acks :
    (l : Allowlist) (d : Delivery)
    → allows l d.from.endpoint ≡ true
    → acknowledged (process l d) ≡ expected_ack (posed d.message) d.from
unfolding process admit acknowledged posed expected_ack request_of
process_acks l d h = ground arith

-- An `Open` that is admitted goes to the party, with the ack of its request ready.
pub process-open :
    (l : Allowlist) (from to : Address) (q : Request)
    → allows l from.endpoint ≡ true
    → process l (record { from = from; to = to; message = turn_message (open_turn q) })
      ≡ inbound_turn (open_turn q) to from (some (ack_message (record { id = q.id })))
unfolding process admit request_of
process-open l from to q h = ground arith
