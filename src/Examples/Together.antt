-- ===== src/Examples/Together.antt =====
-- Tests of crates/kamiroh-app over crates/kamiroh-adapter-memory: a phone and a hosted echo party.
use kamiroh.Examples.Values.{alice, bob, endpoint_b, asking_with, only_a, patience, silent}
use kamiroh.Memory.Net.{Shared, empty_mailbox, is_partitioned, poll_next}
use kamiroh.Common.{
  [], ◌∷◌, none, some, ok, true, false, Text-discrete, ℕ_discrete, ◌≡◌, arith, refl,
}
use kamiroh.Memory.World.{Sim, memory_transport, test_timer}
use kamiroh.App.Runtime.{LocalActor, LocalRuntime, plain_actor}
use kamiroh.App.Phone.{Phone, open_exchange, note_ack, on_incoming}
use kamiroh.Common.Assoc.{get}
use kamiroh.Domain.TurnState.{idle, is_live, concluded}
use kamiroh.App.Parties.{echo, new_echo, echo_of}
use kamiroh.Common.Sets.{contains}
use kamiroh.Domain.Allowlist.{allows}
use kamiroh.Domain.Address.{Address-discrete, EndpointId-discrete, ActorName-discrete}
use kamiroh.Domain.Hex.{Hex-discrete}
use kamiroh.Exchange.{turn_delivery, memory_ports, ack_delivery, echo_exchange}
use kamiroh.Domain.Vocabulary.{open_turn}
use kamiroh.App.Runtime.Step.{take_delivery}
use kamiroh.Ports.{ready}
use kamiroh.Memory.Sending.{receive}

abbrev two_mailboxes : Shared
two_mailboxes = record {
  mailboxes = (bob, empty_mailbox) ∷ (alice, empty_mailbox) ∷ [];
  partitions = [];
  held = [];
  death_watchers = [];
  woken = [];
}

abbrev quiet_world : Sim
quiet_world = record { net = two_mailboxes; clock = record { now = 5; sleepers = [] } }

abbrev echoing_bob : LocalActor (Unit {0})
echoing_bob = record {
  allowlist = only_a;
  kind = plain_actor;
  deadlines = patience;
  party = some (echo new_echo);
  conversations = [];
}

abbrev machine_b : LocalRuntime Sim (Unit {0})
machine_b = record {
  endpoint = endpoint_b;
  world = quiet_world;
  spawn_deadlines = patience;
  observer = some [];
  death_watch = false;
  dead = [];
  actors = (bob.name, echoing_bob) ∷ [];
}

abbrev phone_of_alice : Phone
phone_of_alice = record {
  self_address = alice;
  peer = bob;
  deadlines = patience;
  state = idle;
  ack_due = none;
  turn_due = none;
}

echo_exchange_example :
    let q = asking_with 1 in
    let (w1, p1, opened) =
      open_exchange memory_transport (test_timer 7) quiet_world phone_of_alice q in
    let (n2, polled) = poll_next 7 w1.net bob in
    let d = turn_delivery alice bob (open_turn q) in
    let after =
      take_delivery
        (memory_ports 7 0 silent)
        bob.name
        only_a
        plain_actor
        d
        (record machine_b { world = record w1 { net = n2 } }) in
    let (p2, acked) = note_ack p1 (record { id = q.id }) in
    let (p3, outcome) = on_incoming p2 (echo_of q) in
    (opened ≡ ok tt)
    × (polled ≡ ready (some d))
    × (receive 7 2 after.0.world.net alice
        ≡ ack_delivery bob alice q ∷ turn_delivery bob alice (echo_of q) ∷ [])
    × (acked ≡ true)
    × (outcome ≡ ok concluded)
    × (p3.state ≡ idle)
    × (p3.turn_due ≡ none)
    × (p3.ack_due ≡ none)
unfolding get is_live is_partitioned contains allows Address-discrete EndpointId-discrete
    ActorName-discrete Hex-discrete Text-discrete ℕ_discrete new_echo
echo_exchange_example =
    echo_exchange 7 0 silent quiet_world phone_of_alice (asking_with 1) bob.name machine_b
      echoing_bob new_echo refl (refl, refl, refl) refl refl refl
      (ground arith, none, refl, none, refl, refl, refl)
