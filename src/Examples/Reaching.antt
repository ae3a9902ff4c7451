-- ===== src/Examples/Reaching.antt =====
-- Tests of the Iroh adapter: a run of a net from its start.
use kamiroh.Examples.Wire.{Wire, wire, wire_queues, wire-Authenticates}
use kamiroh.Examples.Values.{alice, endpoint_b, endpoint_a}
use kamiroh.Common.{refl, codes, [], ◌∷◌, some, true, All, Text-discrete, ℕ_discrete, ◌≡◌}
use kamiroh.Common.Assoc.{get, insert}
use kamiroh.Domain.Hex.{new as new_hex, Hex-discrete, is_ascii_hexdigit, to_ascii_lowercase}
use kamiroh.Iroh.Shared.{Shared, Serving, started, node_id_to_endpoint_id}
use kamiroh.Iroh.Steps.{
  Reach, begun, later, bound_at, connected, peer_added, network_moved, read_from,
}
use kamiroh.Iroh.Net.{bind, add_peer, is_bound}
use kamiroh.Iroh.Sending.{connection_to, dial, accepted, spawn_reader, watch_connection, cache}
use kamiroh.Domain.Address.{EndpointId-discrete}
use kamiroh.Iroh.Reading.{read_one}
use kamiroh.Iroh.Proven.{HasOrigin, ServesOrigin}
use kamiroh.Iroh.Authentic.{waiting-HasOrigin, connection_to-IsKeyOf}

abbrev quiet : Wire
quiet = record { incoming = []; fresh = 0; alive_from = 0 }

abbrev net_0 : Shared wire
net_0 = record {
  endpoint = quiet;
  endpoint_id = endpoint_a;
  channels = record { fresh = 0; closed = λ c. true; queue = λ c. [] };
  bound = [];
  peers = [];
  connections = [];
  death_watchers = [];
  readers = [];
  watches = [];
  woken = [];
}

net_0-Reach : Reach wire net_0
unfolding started node_id_to_endpoint_id new_hex is_ascii_hexdigit to_ascii_lowercase
net_0-Reach = begun quiet net_0 refl

connection_to-IsKeyOf_example : node_id_to_endpoint_id wire (codes "bb") ≡ some endpoint_b
unfolding connection_to dial get insert EndpointId-discrete Hex-discrete Text-discrete ℕ_discrete
    add_peer node_id_to_endpoint_id new_hex is_ascii_hexdigit to_ascii_lowercase
connection_to-IsKeyOf_example =
    connection_to-IsKeyOf wire wire-Authenticates
      (later net_0-Reach (peer_added net_0 (codes "bb"))) endpoint_b true (0, codes "bb") refl

-- Alice binds an inbox, the second machine connects, and its ping is read.
abbrev net_1 : Shared wire
net_1 = (bind wire net_0 alice).0

abbrev net_2 : Shared wire
net_2 = accepted wire net_1 (some (7, codes "bb"))

abbrev net_3 : Shared wire
net_3 = record net_2 { endpoint = record quiet { incoming = (3 ∷ codes "bobalice") ∷ [] } }

abbrev serving_7 : Serving wire
serving_7 = record { connection = (7, codes "bb"); origin = endpoint_b }

abbrev net_4 : Shared wire
net_4 = (read_one wire net_3 serving_7).0

net_4-Reach : Reach wire net_4
unfolding accepted spawn_reader watch_connection cache node_id_to_endpoint_id new_hex
    is_ascii_hexdigit to_ascii_lowercase bind is_bound get EndpointId-discrete Hex-discrete
    Text-discrete ℕ_discrete
net_4-Reach =
    let reached_1 : Reach wire net_1 = later net_0-Reach (bound_at net_0 alice) in
    let reached_2 : Reach wire net_2 = later reached_1 (connected net_1 (some (7, codes "bb"))) in
    let reached_3 : Reach wire net_3 =
      later reached_2
        (network_moved net_2 (record quiet { incoming = (3 ∷ codes "bobalice") ∷ [] })) in
    later reached_3 (read_from net_3 serving_7 [] [] refl)

waiting-HasOrigin_example :
    All (HasOrigin wire net_4.readers net_4.endpoint_id) (wire_queues.waiting net_4.channels 0)
    × All (ServesOrigin wire) net_4.readers
waiting-HasOrigin_example = waiting-HasOrigin wire wire_queues wire-Authenticates net_4-Reach 0
