-- ===== src/Examples/Phones.antt =====
-- Tests of phones, waits, parties and the delivery gate.
use kamiroh.Examples.Values.{
  alice, bob, asking_with, answering, id_of, patience, carrying, wall_clock,
}
use kamiroh.App.Phone.{converse, next_due, Phone}
use kamiroh.App.Phone.Waits.{
  phone_calls-PhoneArmed, next_due_iff_awaiting, PhoneArmed, phone_calls, PhoneCall, send_call,
  incoming_call, deadline_call,
}
use kamiroh.App.Parties.{new_countdown}
use kamiroh.App.Parties.Rounds.{countdown_rounds, dialogue, AsksThenCloses}
use kamiroh.Domain.TurnState.{awaiting_their_turn}
use kamiroh.Common.{[], ◌∷◌, none, some, true, List, is_some, ◌≡◌, ◌↔◌, arith}
use kamiroh.Domain.Vocabulary.{open_turn, Turn, close_turn, RequestId}

abbrev opened_calls : List PhoneCall
opened_calls =
    send_call (open_turn (asking_with 1))
    ∷ incoming_call (close_turn (answering 1))
    ∷ send_call (open_turn (asking_with 2))
    ∷ deadline_call
    ∷ []

phone_calls-PhoneArmed_example :
    PhoneArmed (phone_calls carrying wall_clock 5 (converse alice bob patience) opened_calls).1
unfolding converse
phone_calls-PhoneArmed_example =
    phone_calls-PhoneArmed carrying wall_clock 5 (converse alice bob patience) opened_calls tt

next_due_iff_awaiting_example :
    let p = (phone_calls carrying wall_clock 5 (converse alice bob patience) opened_calls).1 in
    (is_some (next_due p) ≡ true) ↔ ((o : RequestId) × (p.state ≡ awaiting_their_turn o))
next_due_iff_awaiting_example =
    next_due_iff_awaiting carrying wall_clock 5 alice bob patience opened_calls

abbrev waiting_phone : Phone
waiting_phone = record {
  self_address = alice;
  peer = bob;
  deadlines = patience;
  state = awaiting_their_turn (id_of 1);
  ack_due = none;
  turn_due = some 105;
}

countdown_rounds_example :
    (ts : List Turn) × (dialogue
        (new_countdown 2)
        alice
        (open_turn (asking_with 1))
        (asking_with 2 ∷ asking_with 3 ∷ [])
      ≡ some ts)
    × AsksThenCloses 2 ts
countdown_rounds_example =
    countdown_rounds 2 alice (asking_with 1) (asking_with 2 ∷ asking_with 3 ∷ []) (omega arith)
