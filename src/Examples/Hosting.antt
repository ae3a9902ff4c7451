-- ===== src/Examples/Hosting.antt =====
-- Tests of the Kameo host: a countdown party is opened, asks, and its timer fires.
use kamiroh.Examples.Values.{
  alice, bob, asking_with, id_of, patience, only_a, carrying, silent, answering,
}
use kamiroh.Kameo.Host.{Hosted, PeerWaits, fail_exchange, settle_all, next_epoch}
use kamiroh.Kameo.Timers.{
  deadline_reported, take_turn, send_reply, answer_with, ask_party, send_ack, arm,
}
use kamiroh.Kameo.Backed.{Spawned, turn_report}
use kamiroh.Kameo.Handling.{
  HostMessage, turn_delivered, world_moves, handle_all, handle, awaiting_has_timer,
}
use kamiroh.App.Parties.{countdown, new_countdown, on_turn_boxed, countdown_on_turn}
use kamiroh.App.Runtime.{plain_actor}
use kamiroh.Common.Assoc.{get, insert}
use kamiroh.Common.{
  [], ◌∷◌, none, some, true, refl, Text-discrete, ℕ_discrete, List, ℕ, ◌+◌, ◌≡◌, arith,
}
use kamiroh.Domain.Address.{Address-discrete, EndpointId-discrete, ActorName-discrete}
use kamiroh.Domain.Hex.{Hex-discrete}
use kamiroh.Domain.Deadline.{deadline_elapsed, turn_wait}
use kamiroh.Domain.TurnState.{awaiting_their_turn, on_incoming, on_outgoing}
use kamiroh.Domain.Vocabulary.{request_of, RequestId-discrete, open_turn, close_turn, continue_turn}
use kamiroh.Kameo.Stale.{stale_report_ignored}

abbrev new_host : Hosted ℕ (Unit {0})
new_host = record {
  host = record {
    address = bob;
    allowlist = only_a;
    kind = plain_actor;
    deadlines = patience;
    party = some (countdown (new_countdown 2));
    conversations = [];
  };
  world = 5;
  events = some [];
  tasks = [];
}

abbrev one_open : List (HostMessage ℕ)
one_open = turn_delivered alice (open_turn (asking_with 1)) none ∷ world_moves (λ w. w + 200) ∷ []

abbrev asked_waits : PeerWaits
asked_waits = record {
  state = awaiting_their_turn (id_of 100);
  ack = some (id_of 100);
  turn = true;
  epoch = 1;
}

awaiting_has_timer_example :
    let h = handle_all carrying silent one_open new_host in
    Spawned (turn_report alice 1) h.tasks
    × (deadline_reported silent (turn_report alice 1) h
        ≡ fail_exchange silent alice (deadline_elapsed turn_wait) h)
unfolding handle_all handle take_turn answer_with ask_party send_ack send_reply arm get insert
    on_turn_boxed new_countdown countdown_on_turn on_incoming on_outgoing request_of settle_all
    next_epoch Address-discrete EndpointId-discrete ActorName-discrete Hex-discrete Text-discrete
    RequestId-discrete ℕ_discrete
awaiting_has_timer_example =
    awaiting_has_timer carrying silent one_open new_host alice {ws = asked_waits} {o = id_of 100}
      refl refl refl

abbrev asked_host : Hosted ℕ (Unit {0})
asked_host = record new_host {
  host = record new_host.host { conversations = (alice, asked_waits) ∷ [] };
}

abbrev later : List (HostMessage ℕ)
later = turn_delivered alice (close_turn (answering 200)) none ∷ world_moves (λ w. w + 200) ∷ []

stale_report_ignored_example :
    let turn = continue_turn (answering 100) (asking_with 2) in
    let after =
      handle_all carrying silent later (take_turn carrying silent alice turn none asked_host) in
    deadline_reported silent (turn_report alice 1) after ≡ after
unfolding get on_incoming RequestId-discrete Address-discrete EndpointId-discrete ActorName-discrete
    Hex-discrete Text-discrete ℕ_discrete
stale_report_ignored_example =
    stale_report_ignored carrying silent (turn_report alice 1) later
      (continue_turn (answering 100) (asking_with 2)) none asked_host (refl, tt) refl (omega arith)
      refl (omega arith)
