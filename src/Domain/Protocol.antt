-- ===== src/Domain/Protocol.antt =====
-- crates/kamiroh-domain/src/protocol.rs, first part: which messages open an exchange and which
-- complete it.
pub mod Pairing
use kamiroh.Common.{Bool, true, false, same}
use kamiroh.Domain.Address.{ActorName-discrete}
use kamiroh.Domain.Vocabulary.{
  RequestId-discrete, Harness, spawn, spawned, stop, stopped, ping, pong, failed, Turn, open_turn,
  close_turn, Message, request_message, ack_message, harness_message, turn_message,
}

pub data ProtocolId : Type 0 where
  request_ack harness turns : ProtocolId

unfoldable pub protocol_of : Message → ProtocolId
protocol_of (request_message q) = request_ack
protocol_of (ack_message a) = request_ack
protocol_of (harness_message h) = harness
protocol_of (turn_message t) = turns

-- The commands among the harness messages.
unfoldable pub is_command : Harness → Bool
is_command (spawn n) = true
is_command (stop n) = true
is_command ping = true
is_command _ = false

unfoldable pub is_open : Turn → Bool
is_open (open_turn q) = true
is_open _ = false

unfoldable pub opens : Message → Bool
unfolding is_command is_open
opens (request_message q) = true
opens (ack_message a) = false
opens (harness_message h) = is_command h
opens (turn_message t) = is_open t

command_completes : Harness → Harness → Bool
command_completes ping pong = true
command_completes (spawn n) (spawned m) = same ActorName-discrete n m
command_completes (stop n) (stopped m) = same ActorName-discrete n m
command_completes (spawn n) (failed why) = true
command_completes (stop n) (failed why) = true
command_completes ping (failed why) = true
command_completes _ _ = false

unfoldable pub completes : Message → Message → Bool
unfolding command_completes
completes (request_message q) (ack_message a) = same RequestId-discrete a.id q.id
completes (harness_message c) (harness_message r) = command_completes c r
completes (turn_message (open_turn q)) (turn_message (close_turn r)) =
    same RequestId-discrete r.id q.id
completes _ _ = false
