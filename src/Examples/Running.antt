-- ===== src/Examples/Running.antt =====
-- Tests of the runtime: failures, revocations, denials, replies, commands and whole steps.
use kamiroh.Examples.Values.{
  ports_over, alice, bob, carol, endpoint_a, endpoint_b, answering, id_of, patience, carrying,
  failing,
}
use kamiroh.App.Runtime.{LocalActor, LocalRuntime, PeerState, plain_actor, exchange_failed_step}
use kamiroh.App.Runtime.Calls.{Call, perform_all, perform_all-RuntimeArmed, step_call, revoke_call}
use kamiroh.App.Runtime.Answering.{reply_refused, reply_illegal}
use kamiroh.App.Runtime.Replies.{ReplyFailed}
use kamiroh.App.Runtime.Earliest.{earliest_due_earliest, IsAttained, WaitsAtMost}
use kamiroh.App.Runtime.Commands.{spawn_then_stop}
use kamiroh.App.Runtime.Invariant.{RuntimeArmed}
use kamiroh.App.Runtime.Manage.{revoke}
use kamiroh.App.Runtime.Step.{execute}
use kamiroh.App.Runtime.Due.{earliest_due}
use kamiroh.App.Runtime.Turns.{answer_with}
use kamiroh.App.Parties.{new_echo, echo}
use kamiroh.Domain.Allowlist.{Allowlist, revoke as revoke_endpoint}
use kamiroh.Domain.TurnState.{
  idle, awaiting_their_turn, owe_them, concluded, wrong_response, on_outgoing,
}
use kamiroh.Domain.Deadline.{send_failed, illegal_reply}
use kamiroh.Domain.Vocabulary.{spawn, stop, spawned, stopped, RequestId-discrete, close_turn}
use kamiroh.Common.Assoc.{get, AllEntries}
use kamiroh.Common.Sets.{remove as remove_endpoint}
use kamiroh.Common.{
  [], ◌∷◌, none, some, ok, true, refl, List, ℕ, Text-discrete, ◌≡◌, if_pos, ℕ_discrete, codes,
}
use kamiroh.Domain.Address.{ActorName-discrete, EndpointId-discrete, Address-discrete, ActorName}
use kamiroh.Domain.Hex.{Hex-discrete}

abbrev only_b : Allowlist
only_b = record { endpoints = endpoint_b ∷ [] }

abbrev awaiting_bob : PeerState
awaiting_bob = record { state = awaiting_their_turn (id_of 1); ack_due = none; turn_due = some 105 }

abbrev owing_carol : PeerState
owing_carol = record { state = owe_them (id_of 2); ack_due = none; turn_due = none }

abbrev busy_alice : LocalActor (Unit {0})
busy_alice = record {
  allowlist = only_b;
  kind = plain_actor;
  deadlines = patience;
  party = some (echo new_echo);
  conversations = (bob, awaiting_bob) ∷ (carol, owing_carol) ∷ [];
}

abbrev machine_a : LocalRuntime ℕ (Unit {0})
machine_a = record {
  endpoint = endpoint_a;
  world = 5;
  spawn_deadlines = patience;
  observer = some [];
  death_watch = true;
  dead = endpoint_b ∷ [];
  actors = (alice.name, busy_alice) ∷ [];
}

installed_alice : get ActorName-discrete alice.name machine_a.actors ≡ some busy_alice
unfolding get
installed_alice = if_pos (ActorName-discrete alice.name alice.name) refl (some busy_alice) none

abbrev some_calls : List (Call ℕ (Unit {0}))
some_calls = step_call alice.name [] ∷ revoke_call alice.name endpoint_b ∷ []

perform_all-RuntimeArmed_example :
    RuntimeArmed (perform_all (ports_over carrying) some_calls machine_a)
perform_all-RuntimeArmed_example =
    perform_all-RuntimeArmed (ports_over carrying) some_calls machine_a ((tt, (tt, tt)), tt)

reply_refused_example :
    let (r', result) =
      answer_with
        (ports_over failing)
        alice.name
        alice
        carol
        (some (close_turn (answering 2)))
        machine_a in
    (result ≡ ok (exchange_failed_step carol send_failed))
    × (r'.world ≡ 5)
    × ReplyFailed (ports_over failing) alice.name carol send_failed busy_alice machine_a r'
unfolding get on_outgoing Address-discrete EndpointId-discrete ActorName-discrete Hex-discrete
    Text-discrete RequestId-discrete ℕ_discrete
reply_refused_example =
    reply_refused (ports_over failing) alice.name alice carol (close_turn (answering 2)) machine_a
      {a = busy_alice} {s = idle} {progress = concluded} {why = codes "no route"} installed_alice
      refl refl

reply_illegal_example :
    let (r', result) =
      answer_with
        (ports_over carrying)
        alice.name
        alice
        carol
        (some (close_turn (answering 9)))
        machine_a in
    (result ≡ ok (exchange_failed_step carol illegal_reply))
    × (r'.world ≡ 5)
    × ReplyFailed (ports_over carrying) alice.name carol illegal_reply busy_alice machine_a r'
unfolding get on_outgoing Address-discrete EndpointId-discrete ActorName-discrete Hex-discrete
    Text-discrete RequestId-discrete ℕ_discrete
reply_illegal_example =
    reply_illegal (ports_over carrying) alice.name alice carol (close_turn (answering 9)) machine_a
      {a = busy_alice} {s = owe_them (id_of 2)} {e = wrong_response} installed_alice refl

earliest_due_earliest_example :
    IsAttained busy_alice.conversations (earliest_due busy_alice)
    × AllEntries (λ _ ps. WaitsAtMost (earliest_due busy_alice) ps) busy_alice.conversations
earliest_due_earliest_example = earliest_due_earliest busy_alice

spawn_then_stop_example :
    let (r1, first) = execute (ports_over carrying) (spawn bob.name) carol machine_a in
    let (r2, second) = execute (ports_over carrying) (stop bob.name) carol r1 in
    (first ≡ some (spawned bob.name))
    × (second ≡ some (stopped bob.name))
    × (r2.world ≡ 5)
    × ((j : ActorName)
        → get ActorName-discrete j r2.actors ≡ get ActorName-discrete j machine_a.actors)
unfolding get ActorName-discrete Text-discrete ℕ_discrete
spawn_then_stop_example =
    spawn_then_stop (ports_over carrying) bob.name carol machine_a {w = 5} refl refl
