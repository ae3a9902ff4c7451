-- ===== src/Domain/TurnState/Script.antt =====
-- crates/kamiroh-domain/src/protocol.rs: the rules of the protocol without the machine, and
-- the machine.
use kamiroh.Common.{◌≡◌, refl, ◌↔◌, Result, ok, err, List, [], ◌∷◌, Option, none, some, arith}
use kamiroh.Domain.Vocabulary.{
  RequestId, RequestId-discrete, Request, Response, Turn, open_turn, continue_turn, close_turn,
}
use kamiroh.Domain.TurnState.{
  TurnState, idle, awaiting_their_turn, owe_them, TurnProgress, TurnError, on_outgoing, on_incoming,
}

-- Who speaks, seen from the machine's side.
pub data Side : Type 0 where
  us them : Side

abbrev pub other : Side → Side
other us = them
other them = us

-- One turn through the machine, kept only if it is legal.
abbrev accepted : TurnState × Result TurnProgress TurnError → Option TurnState
accepted (s, ok p) = some s
accepted (s, err e) = none

unfoldable pub hear : Side → TurnState → Turn → Option TurnState
hear us s t = accepted (on_outgoing s t)
hear them s t = accepted (on_incoming s t)

-- A whole history, `none` if any turn of it is refused.
unfoldable pub play : TurnState → List (Side × Turn) → Option TurnState
play s [] = some s
play s ((d, t) ∷ es) = elim (hear d s t) [ none ↦ none | some s' ↦ play s' es ]

-- What the conversation stands at: nothing, or a request that a side must answer.
pub data Standing : Type 0 where
  quiet : Standing
  must_answer : Side → RequestId → Standing

-- The rules of the protocol, with no reference to the machine: an exchange is opened by either
-- side, its turns alternate, each answers the request posed before it, and it ends by a close.
pub data Script : Standing → List (Side × Turn) → Type 0 where
  done : Script quiet []
  opening :
      (d : Side) (q : Request) {es : List (Side × Turn)}
      → Script (must_answer (other d) q.id) es
      → Script quiet ((d, open_turn q) ∷ es)
  continuing :
      (d : Side) (o : RequestId) (r : Response) (q : Request) {es : List (Side × Turn)}
      → r.id ≡ o
      → Script (must_answer (other d) q.id) es
      → Script (must_answer d o) ((d, continue_turn r q) ∷ es)
  closing :
      (d : Side) (o : RequestId) (r : Response) {es : List (Side × Turn)}
      → r.id ≡ o
      → Script quiet es
      → Script (must_answer d o) ((d, close_turn r) ∷ es)

-- The state of a live machine at a standing.
abbrev pub state_at : Standing → TurnState
state_at quiet = idle
state_at (must_answer us o) = owe_them o
state_at (must_answer them o) = awaiting_their_turn o

hear_open :
    (d : Side) (q : Request)
    → hear d idle (open_turn q) ≡ some (state_at (must_answer (other d) q.id))
unfolding hear on_outgoing on_incoming
hear_open us q = refl
hear_open them q = refl

hear_continue :
    (d : Side) (o : RequestId) (r : Response) (q : Request)
    → r.id ≡ o
    → hear d (state_at (must_answer d o)) (continue_turn r q)
      ≡ some (state_at (must_answer (other d) q.id))
unfolding hear on_outgoing on_incoming
hear_continue us o r q e = ground arith
hear_continue them o r q e = ground arith

hear_close :
    (d : Side) (o : RequestId) (r : Response)
    → r.id ≡ o
    → hear d (state_at (must_answer d o)) (close_turn r) ≡ some idle
unfolding hear on_outgoing on_incoming
hear_close us o r e = ground arith
hear_close them o r e = ground arith

-- Every script is accepted, and brings the machine to `Idle`.
Script-play :
    {w : Standing} {es : List (Side × Turn)} → Script w es → play (state_at w) es ≡ some idle
unfolding play
Script-play done = refl
Script-play (opening d q s) = rw (hear_open d q, play) (Script-play s)
Script-play (continuing d o r q e s) = rw (hear_continue d o r q e, play) (Script-play s)
Script-play (closing d o r e s) = rw (hear_close d o r e, play) (Script-play s)

-- Conversely, whatever brings a live machine to `Idle` with no refusal is a script.
play-Script :
    (w : Standing) (es : List (Side × Turn)) → play (state_at w) es ≡ some idle → Script w es
unfolding play hear on_outgoing on_incoming
play-Script quiet [] h = done
play-Script (must_answer us o) [] h = cc
play-Script (must_answer them o) [] h = cc
play-Script quiet ((us, open_turn q) ∷ es) h =
    opening us q (play-Script (must_answer them q.id) es h)
play-Script quiet ((them, open_turn q) ∷ es) h =
    opening them q (play-Script (must_answer us q.id) es h)
play-Script quiet ((us, continue_turn r q) ∷ es) h = cc
play-Script quiet ((them, continue_turn r q) ∷ es) h = cc
play-Script quiet ((us, close_turn r) ∷ es) h = cc
play-Script quiet ((them, close_turn r) ∷ es) h = cc
play-Script (must_answer us o) ((us, open_turn q) ∷ es) h = cc
play-Script (must_answer us o) ((us, continue_turn r q) ∷ es) h = elim (RequestId-discrete r.id o) [
  | yes e ↦ continuing us o r q e (play-Script (must_answer them q.id) es (ground arith))
  | no e ↦ absurd (ground arith)
]
play-Script (must_answer us o) ((us, close_turn r) ∷ es) h = elim (RequestId-discrete r.id o) [
  | yes e ↦ closing us o r e (play-Script quiet es (ground arith))
  | no e ↦ absurd (ground arith)
]
play-Script (must_answer us o) ((them, t) ∷ es) h = cc
play-Script (must_answer them o) ((us, t) ∷ es) h = cc
play-Script (must_answer them o) ((them, open_turn q) ∷ es) h = cc
play-Script (must_answer them o) ((them, continue_turn r q) ∷ es) h =
    elim (RequestId-discrete r.id o) [
      | yes e ↦ continuing them o r q e (play-Script (must_answer us q.id) es (ground arith))
      | no e ↦ absurd (ground arith)
    ]
play-Script (must_answer them o) ((them, close_turn r) ∷ es) h = elim (RequestId-discrete r.id o) [
  | yes e ↦ closing them o r e (play-Script quiet es (ground arith))
  | no e ↦ absurd (ground arith)
]

-- The machine, run from `Idle`, ends in `Idle` with every turn accepted exactly on the scripts of
-- whole exchanges: opened by either side, strictly alternating, each turn answering the request
-- posed before it, closed before the next one opens.
pub play_iff_Script : (es : List (Side × Turn)) → (play idle es ≡ some idle) ↔ Script quiet es
play_iff_Script es = (play-Script quiet es, Script-play)
