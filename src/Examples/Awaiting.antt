-- ===== src/Examples/Awaiting.antt =====
-- Tests of the runtime: a countdown party is opened, asks, and awaits the answer.
use kamiroh.Examples.Values.{alice, bob, endpoint_b, id_of, patience, only_a, ports_over, carrying}
use kamiroh.App.Runtime.{LocalActor, PeerState, plain_actor, new}
use kamiroh.App.Runtime.Calls.{
  Call, perform, perform_all, awaiting_has_deadline, step_call, party_call,
}
use kamiroh.App.Runtime.Manage.{install_party, install_inner, sweep_dead, sweep, affected}
use kamiroh.App.Runtime.Step.{
  step, after_sweep, wait_and_act, await_event, act, take_delivery, dispatch,
}
use kamiroh.App.Runtime.Turns.{
  take_turn, arrive, hear_turn, after_arrival, send_ack, send, hand_over, ask_party, answer_with,
  arm, speak_turn, finish_reply, send_reply,
}
use kamiroh.App.Runtime.Due.{earliest_due, earliest_from, better}
use kamiroh.App.Wait.{next_timed, poll_timed, poll_deadline}
use kamiroh.App.Inbound.{process}
use kamiroh.App.Admission.{admit as admit_delivery}
use kamiroh.App.Parties.{countdown, new_countdown, on_turn_boxed, countdown_on_turn}
use kamiroh.Domain.Allowlist.{allows}
use kamiroh.Domain.TurnState.{awaiting_their_turn, on_incoming, on_outgoing}
use kamiroh.Domain.Vocabulary.{request_of, RequestId-discrete}
use kamiroh.Domain.Address.{Address-discrete, EndpointId-discrete, ActorName-discrete}
use kamiroh.Domain.Hex.{Hex-discrete}
use kamiroh.Common.Assoc.{get, insert, contains_key}
use kamiroh.Common.Sets.{contains, remove as remove_endpoint}
use kamiroh.Common.{[], ◌∷◌, some, refl, true, is_some, Text-discrete, ℕ_discrete, List, ◌≡◌, ℕ}

-- A countdown party that has been opened by alice and has asked its first question.
abbrev asked_alice : PeerState
asked_alice = record {
  state = awaiting_their_turn (id_of 100);
  ack_due = some (id_of 100, 15);
  turn_due = some 105;
}

abbrev counting_bob : LocalActor (Unit {0})
counting_bob = record {
  allowlist = only_a;
  kind = plain_actor;
  deadlines = patience;
  party = some (
      countdown (record {
        rounds = 2;
        peers =
            (
              alice,
              record { state = awaiting_their_turn (id_of 100); remaining = 1; next_id = 101 },
            )
            ∷ [];
      }));
  conversations = (alice, asked_alice) ∷ [];
}

abbrev opened_bob : List (Call ℕ (Unit {0}))
opened_bob =
    party_call bob.name only_a patience (countdown (new_countdown 2)) ∷ step_call bob.name [] ∷ []

awaiting_has_deadline_example : is_some (earliest_due counting_bob) ≡ true
unfolding get insert remove_endpoint contains perform perform_all new install_party install_inner
    contains_key step sweep_dead sweep affected after_sweep wait_and_act await_event next_timed
    poll_timed poll_deadline earliest_due earliest_from better act take_delivery dispatch process
    admit_delivery allows take_turn arrive hear_turn after_arrival send_ack send hand_over ask_party
    on_turn_boxed new_countdown countdown_on_turn on_incoming on_outgoing request_of answer_with arm
    speak_turn finish_reply send_reply Address-discrete EndpointId-discrete ActorName-discrete
    Hex-discrete Text-discrete RequestId-discrete ℕ_discrete
awaiting_has_deadline_example =
    awaiting_has_deadline (ports_over carrying) opened_bob endpoint_b 5 patience bob.name alice
      {a = counting_bob} {ps = asked_alice} {o = id_of 100} refl refl refl
