-- ===== src/Examples/Machines.antt =====
-- Tests of the domain: hex strings, addresses, allowlists, protocols and the turn machine.
use kamiroh.Examples.Values.{endpoint_a, endpoint_b, bob, id_of, asking_with, answering}
use kamiroh.Domain.TurnState.Script.{play, play_iff_Script, Script, us, them, quiet, Side, hear}
use kamiroh.Domain.TurnState.Mirror.{on_incoming-mirror, mirror, mirror_outcome}
use kamiroh.Domain.TurnState.Death.{
  fail_is_final, react_all, Happening, receiving, verdict, opens_afresh,
}
use kamiroh.Domain.TurnState.{
  on_incoming, on_outgoing, fail, idle, owe_them, failed, exchange_failed, awaiting_their_turn,
}
use kamiroh.Domain.Protocol.{is_open}
use kamiroh.Domain.Hex.{Hex}
use kamiroh.Domain.Allowlist.Policy.{admits, revokes, Edit}
use kamiroh.App.Conversation.Sequential.{
  succeeding, succeeding-Sequential, Sequential, begins, concludes, Call,
}
use kamiroh.App.Conversation.{new as new_conversation}
use kamiroh.Common.{[], ◌∷◌, some, err, inl, List, ◌≡◌, codes, refl, ◌↔◌, arith}
use kamiroh.Domain.Vocabulary.{close_turn, turn_message, Turn, open_turn, continue_turn}

-- Two rounds: a question, a counter-question, an answer.
abbrev two_rounds : List (Side × Turn)
two_rounds =
    (us, open_turn (asking_with 1))
    ∷ (them, continue_turn (answering 1) (asking_with 2))
    ∷ (us, close_turn (answering 2))
    ∷ []

play_iff_Script_example : (play idle two_rounds ≡ some idle) ↔ Script quiet two_rounds
play_iff_Script_example = play_iff_Script two_rounds

two_rounds-play : play idle two_rounds ≡ some idle
unfolding play hear on_outgoing on_incoming
two_rounds-play = ground arith

on_incoming-mirror_example :
    on_incoming (mirror (owe_them (id_of 1))) (close_turn (answering 1))
    ≡ mirror_outcome (on_outgoing (owe_them (id_of 1)) (close_turn (answering 1)))
on_incoming-mirror_example = on_incoming-mirror (owe_them (id_of 1)) (close_turn (answering 1))

abbrev late_answer : List Happening
late_answer = receiving (close_turn (answering 1)) ∷ verdict ∷ []

fail_is_final_example :
    let dead = react_all (fail (awaiting_their_turn (id_of 1))).0 late_answer in
    (dead ≡ failed)
    × (on_outgoing dead (close_turn (answering 1)) ≡ (failed, err exchange_failed))
    × (on_incoming dead (close_turn (answering 1)) ≡ (failed, err exchange_failed))
unfolding opens_afresh is_open
fail_is_final_example =
    fail_is_final (awaiting_their_turn (id_of 1)) late_answer (close_turn (answering 1))
      (id_of 1, inl refl) refl refl

abbrev mixed_case : Hex
mixed_case = record { digits = codes "a0ff" }

abbrev some_edits : List Edit
some_edits = admits endpoint_a ∷ admits endpoint_b ∷ revokes endpoint_a ∷ []

abbrev attempts : List Call
attempts =
    begins (turn_message (open_turn (asking_with 1)))
    ∷ begins (turn_message (open_turn (asking_with 2)))
    ∷ concludes (turn_message (close_turn (answering 1)))
    ∷ []

succeeding-Sequential_example :
    Sequential (new_conversation bob).in_flight (succeeding (new_conversation bob) attempts)
succeeding-Sequential_example = succeeding-Sequential (new_conversation bob) attempts
