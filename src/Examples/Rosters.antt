-- ===== src/Examples/Rosters.antt =====
-- Tests of the Kameo runtime: its roster, side by side with a LocalRuntime, and of the test clock.
use kamiroh.Examples.Values.{
  alice, bob, carol, endpoint_a, endpoint_b, patience, carrying, ports_over, asking_with, id_of,
  answering,
}
use kamiroh.Kameo.Host.{Hosted}
use kamiroh.Kameo.Runtime.{KameoRuntime, Entry}
use kamiroh.App.Runtime.Outlined.{outline as local_outline}
use kamiroh.App.Runtime.Step.{execute as execute_local}
use kamiroh.Kameo.Commanding.{outline}
use kamiroh.Kameo.Deliver.{execute}
use kamiroh.Kameo.Agreement.{hosts_agree, local_turns, host_turns, Admitted}
use kamiroh.Kameo.Replied.{host_view}
use kamiroh.App.Runtime.Viewed.{Shown}
use kamiroh.App.Runtime.{LocalRuntime, LocalActor, plain_actor}
use kamiroh.App.Parties.{echo, new_echo}
use kamiroh.Common.{
  refl, [], ◌∷◌, some, none, true, false, List, ℕ, ◌≡◌, Text-discrete, ◌++◌, ℕ_discrete, arith,
}
use kamiroh.Common.Assoc.{get}
use kamiroh.Memory.Clock.{TestClock, advance, poll_sleep}
use kamiroh.Domain.Address.{ActorName-discrete}
use kamiroh.Domain.TurnState.{awaiting_their_turn}
use kamiroh.Domain.Vocabulary.{open_turn, close_turn}
use kamiroh.Memory.Sleeping.{poll_sleep-advance}

-- A host at the first machine and an actor of a LocalRuntime that look the same.
abbrev echo_host : Hosted ℕ (Unit {0})
echo_host = record {
  host = record {
    address = alice;
    allowlist = record { endpoints = endpoint_b ∷ [] };
    kind = plain_actor;
    deadlines = patience;
    party = some (echo new_echo);
    conversations = [];
  };
  world = 5;
  events = some [];
  tasks = [];
}

abbrev echo_actor : LocalActor (Unit {0})
echo_actor = record {
  allowlist = record { endpoints = endpoint_b ∷ [] };
  kind = plain_actor;
  deadlines = patience;
  party = some (echo new_echo);
  conversations = [];
}

abbrev echo_runtime : LocalRuntime ℕ (Unit {0})
echo_runtime = record {
  endpoint = endpoint_a;
  world = 5;
  spawn_deadlines = patience;
  observer = some [];
  death_watch = true;
  dead = [];
  actors = (alice.name, echo_actor) ∷ [];
}

-- A question, and a turn that is illegal.
abbrev two_turns : List Admitted
two_turns = (bob, open_turn (asking_with 1), none) ∷ (carol, close_turn (answering 2), none) ∷ []

hosts_agree_example :
    Shown alice.name
      (local_turns (ports_over carrying) alice.name two_turns echo_runtime)
      (host_view (host_turns (ports_over carrying) two_turns echo_host))
unfolding get ActorName-discrete Text-discrete ℕ_discrete
hosts_agree_example =
    hosts_agree (ports_over carrying) alice.name two_turns echo_runtime echo_host
      (echo_actor, refl, refl)

-- A runtime with that host, in a live exchange.
abbrev busy_entry : Entry (Unit {0})
busy_entry = record {
  host = record echo_host.host {
    conversations =
        (bob, record { state = awaiting_their_turn (id_of 1); ack = none; turn = true; epoch = 1 })
        ∷ [];
  };
  tasks = [];
}

abbrev busy_runtime : KameoRuntime ℕ (Unit {0})
busy_runtime = record {
  endpoint = endpoint_a;
  world = 5;
  roster = (alice.name, busy_entry) ∷ [];
  spawn_deadlines = patience;
  observer = some [];
}

-- One sleeper is registered, and another one sleeps until seven.
abbrev one_sleeper : TestClock
one_sleeper = record { now = 2; sleepers = (9, 1) ∷ [] }

poll_sleep-advance_example :
    let (others, woken) = advance one_sleeper 6 in
    let (c', woken') = advance (poll_sleep 4 one_sleeper 7).0 6 in
    ((poll_sleep 4 one_sleeper 7).1 ≡ false)
    × (woken' ≡ woken ++ 4 ∷ [])
    × (c'.sleepers ≡ others.sleepers ++ [])
    × ((poll_sleep 4 c' 7).1 ≡ true)
poll_sleep-advance_example = poll_sleep-advance one_sleeper 4 7 6 (omega arith) (omega arith)
