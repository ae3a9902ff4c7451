-- ===== src/Examples/Connections.antt =====
-- Tests of the Iroh adapter: a net at the first machine, with a peer at the second.
use kamiroh.Examples.Wire.{wire, wire_queues, wire_laws, wire-ReadsBack, wire-KeepsLimit}
use kamiroh.Examples.Values.{alice, bob, carol, endpoint_b, endpoint_a, asking_with}
use kamiroh.Common.{
  refl, codes, [], ◌∷◌, none, some, ok, err, false, List, ◌≡◌, Text-discrete, ℕ, ◌⊎◌, ℕ_discrete,
  length, arith, ◌≤◌,
}
use kamiroh.Iroh.Sending.{
  send_encoded, send_frame, finish_stream, dial, cache, spawn_reader, watch_connection,
}
use kamiroh.Iroh.Net.{bind, is_bound, drop_inbox}
use kamiroh.Iroh.Deaths.{connection_closed}
use kamiroh.Domain.Hex.{new as new_hex, Hex-discrete, is_ascii_hexdigit, to_ascii_lowercase}
use kamiroh.Common.Assoc.{get, insert}
use kamiroh.Iroh.Shared.{Shared, Serving, node_id_to_endpoint_id}
use kamiroh.Domain.Address.{ActorName-discrete, Address, EndpointId-discrete}
use kamiroh.Iroh.Reading.{read_for, read_one, take_frame, send_receipt}
use kamiroh.Iroh.Frame.{open_many_frame, Frame, single, max_frame_bytes}
use kamiroh.Iroh.Silent.{read_for_blind}
use kamiroh.Iroh.Delivered.{take_frames, read_one-single, read_one_bounded, open_many_frame_singly}
use kamiroh.Domain.Vocabulary.{harness_message, ping, turn_message, open_turn}
use kamiroh.Iroh.Verdicts.{dial-connection_closed}
use kamiroh.Iroh.Errors.{name_in_use, stream_error}
use kamiroh.Iroh.Retried.{send_encoded_redials}
use kamiroh.Iroh.Registered.{bind-drop_inbox}

abbrev pings_bytes : List ℕ
pings_bytes = 3 ∷ codes "bobalice"

-- The channel of alice's inbox is open; the connection to the second machine has gone stale, and
-- a ping waits on it.
abbrev net_a : Shared wire
net_a = record {
  endpoint = record { incoming = pings_bytes ∷ []; fresh = 5; alive_from = 4 };
  endpoint_id = endpoint_a;
  channels = record { fresh = 1; closed = λ c. false; queue = λ c. [] };
  bound = (alice.name, 0) ∷ [];
  peers = (endpoint_b, codes "bb") ∷ [];
  connections = (endpoint_b, (3, codes "bb")) ∷ [];
  death_watchers = record { queue = []; waker = none } ∷ [];
  readers = [];
  watches = [];
  woken = [];
}

abbrev serving_b : Serving wire
serving_b = record { connection = (3, codes "bb"); origin = endpoint_b }

-- The net after the peer was dialed anew.
abbrev redialed : Shared wire
redialed = record net_a {
  endpoint = record { incoming = pings_bytes ∷ []; fresh = 6; alive_from = 4 };
  connections = (endpoint_b, (5, codes "bb")) ∷ [];
  readers = record { connection = (5, codes "bb"); origin = endpoint_b } ∷ [];
  watches = record { connection = (5, codes "bb"); origin = endpoint_b } ∷ [];
}

-- An actor at an endpoint that the net does not know.
abbrev nobody : Address
nobody = record {
  endpoint = record { hex = record { digits = codes "cc" } };
  name = record { name = codes "nobody" };
}

read_one-single_example :
    wire_queues.waiting (read_one wire net_a serving_b).0.channels 0
    ≡ record { from = bob; to = alice; message = harness_message ping } ∷ []
unfolding get ActorName-discrete Text-discrete ℕ_discrete
read_one-single_example =
    read_one-single wire wire_queues wire_laws wire-ReadsBack net_a serving_b bob.name alice.name
      (harness_message ping) pings_bytes pings_bytes 0 refl refl refl refl refl

open_many_frame_singly_example :
    take_frame wire net_a serving_b
      (open_many_frame bob.name (alice.name ∷ carol.name ∷ []) (asking_with 1))
    ≡ take_frames wire
        (send_receipt wire net_a (3, codes "bb") bob.name (asking_with 1))
        serving_b
        (single bob.name alice.name (turn_message (open_turn (asking_with 1)))
          ∷ single bob.name carol.name (turn_message (open_turn (asking_with 1)))
          ∷ [])
open_many_frame_singly_example =
    open_many_frame_singly wire net_a serving_b bob.name (alice.name ∷ carol.name ∷ [])
      (asking_with 1)

read_one_bounded_example :
    ((read_one wire net_a serving_b).0.channels ≡ net_a.channels)
    ⊎ ((bytes : List ℕ) × (frame : Frame) × (n : wire.Endpoint) × (length bytes ≤ max_frame_bytes)
        × (wire.from_bytes bytes ≡ some frame)
        × ((read_one wire net_a serving_b).0
            ≡ take_frame wire (record net_a { endpoint = n }) serving_b frame))
read_one_bounded_example = read_one_bounded wire wire-KeepsLimit net_a serving_b

read_for_blind_example :
    (read_for wire 2 net_a serving_b).endpoint
    ≡ (read_for wire 2 (record net_a { bound = [] }) serving_b).endpoint
read_for_blind_example =
    read_for_blind wire 2 net_a (record net_a { bound = [] }) serving_b refl refl

send_encoded_redials_example :
    (send_encoded wire net_a endpoint_b (single alice.name bob.name (harness_message ping))
      ≡ (redialed, ok tt))
    × (get EndpointId-discrete endpoint_b redialed.connections ≡ some (5, codes "bb"))
unfolding get insert dial cache spawn_reader watch_connection node_id_to_endpoint_id new_hex
    EndpointId-discrete Hex-discrete Text-discrete ℕ_discrete send_frame finish_stream
    is_ascii_hexdigit to_ascii_lowercase
send_encoded_redials_example =
    send_encoded_redials wire net_a redialed endpoint_b
      (single alice.name bob.name (harness_message ping)) (5 ∷ codes "alicebob") (3, codes "bb")
      (5, codes "bb") (stream_error (codes "stale")) refl refl refl refl

dial-connection_closed_example :
    connection_closed wire (dial wire net_a endpoint_b).0 serving_b false
    ≡ (dial wire net_a endpoint_b).0
unfolding get dial EndpointId-discrete Hex-discrete Text-discrete ℕ_discrete
dial-connection_closed_example =
    dial-connection_closed wire net_a endpoint_b (3, codes "bb") (5, codes "bb") false refl
      (ground arith)

bind-drop_inbox_example :
    let s' = (bind wire (record net_a { bound = [] }) alice).0 in
    ((bind wire (record net_a { bound = [] }) alice).1 ≡ ok 1)
    × (bind wire s' alice ≡ (s', err name_in_use))
    × ((bind wire (drop_inbox wire s' 1) alice).1
        ≡ ok (wire.unbounded_channel (wire.drop_receiver s'.channels 1)).1)
unfolding is_bound get
bind-drop_inbox_example =
    bind-drop_inbox wire wire_queues wire_laws (record net_a { bound = [] }) alice refl refl
