-- ===== src/App/Parties/Rounds.antt =====
-- crates/kamiroh-app/src/parties.rs: the countdown party.
use kamiroh.Common.Assoc.{get}
use kamiroh.Common.{refl, ap, [], ◌∷◌, none, some, ok, zero, suc}
use kamiroh.App.Parties.{
  fresh, CountdownParty, countdown_on_turn, entry_or, Countdown, put, repeated, entry_or-put,
  new_countdown,
}
use kamiroh.Domain.TurnState.{
  on_incoming, owe_them, continuing, on_outgoing, awaiting_their_turn, idle,
}
use kamiroh.Common.{
  [], ◌∷◌, none, some, ok, zero, suc, ℕ, List, Option, ◌≡◌, ◌≢◌, arith, ◌≤◌, length, ap, ◌+◌, ◌%◌,
}
use kamiroh.Domain.Vocabulary.{
  Request, Turn, continue_turn, close_turn, request_of, Response, open_turn,
}
use kamiroh.Domain.Address.{Address}

-- The `expect` of the countdown party never panics.
pub countdown_on_turn_total :
    (p : CountdownParty) (from : Address) (t : Turn) → countdown_on_turn p from t ≢ none
unfolding countdown_on_turn on_incoming on_outgoing request_of
countdown_on_turn_total p from t h = ground arith

-- A caller that answers each question with an empty body and poses the next of its requests, as
-- long as the party asks and requests are left: the replies of the party, `none` on a panic.
next_turn : Request → Request → Turn
next_turn asked q = continue_turn (record { id = asked.id; body = [] }) q

abbrev prepend : Turn → Option (List Turn) → Option (List Turn)
prepend t none = none
prepend t (some ts) = some (t ∷ ts)

unfoldable pub dialogue : CountdownParty → Address → Turn → List Request → Option (List Turn)
unfolding next_turn
dialogue p from t [] = elim (countdown_on_turn p from t) [
  | none ↦ none
  | some (p', none) ↦ some []
  | some (p', some reply) ↦ some (reply ∷ [])
]
dialogue p from t (q ∷ qs) = elim (countdown_on_turn p from t) [
  | none ↦ none
  | some (p', none) ↦ some []
  | some (p', some reply) ↦ elim (request_of reply) [
    | none ↦ some (reply ∷ [])
    | some asked ↦ prepend reply (dialogue p' from (next_turn asked q) qs)
  ]
]

-- So many questions, and then a closing answer.
abbrev pub AsksThenCloses : ℕ → List Turn → Type 0
AsksThenCloses zero (close_turn r ∷ []) = Unit
AsksThenCloses (suc n) (continue_turn r q ∷ ts) = AsksThenCloses n ts
AsksThenCloses _ _ = ⊥

abbrev entry : CountdownParty → Address → Countdown
entry p from = entry_or from (fresh p.rounds) p.peers

-- The machine of the peer admits the turn, which poses the request.
abbrev Poses : CountdownParty → Address → Turn → Request → Type 0
Poses p from t q =
    (on_incoming (entry p from).state t ≡ (owe_them q.id, ok continuing)) × (request_of t ≡ some q)

-- The party after its last answer, and after a question.
abbrev closed : CountdownParty → Address → CountdownParty
closed p from = record p { peers = put from (record (entry p from) { state = idle }) p.peers }

abbrev question : CountdownParty → Address → ℕ → Request
question p from n = record { id = repeated (entry p from).next_id; body = n ∷ [] }

abbrev asking : CountdownParty → Address → ℕ → CountdownParty
asking p from n = record p {
  peers =
      put from
        (record {
          state = awaiting_their_turn (repeated (entry p from).next_id);
          remaining = n;
          next_id = ((entry p from).next_id + 1) % 256;
        })
        p.peers;
}

answer_of : Request → Response
answer_of q = record { id = q.id; body = q.body }

answers_last :
    (p : CountdownParty) (from : Address) (t : Turn) (q : Request)
    → Poses p from t q
    → (entry p from).remaining ≡ 0
    → countdown_on_turn p from t ≡ some (closed p from, some (close_turn (answer_of q)))
unfolding countdown_on_turn on_outgoing answer_of
answers_last p from t q h r = ground arith

asks :
    (p : CountdownParty) (from : Address) (t : Turn) (q : Request) (n : ℕ)
    → Poses p from t q
    → (entry p from).remaining ≡ suc n
    → countdown_on_turn p from t
      ≡ some (asking p from n, some (continue_turn (answer_of q) (question p from n)))
unfolding countdown_on_turn on_outgoing answer_of
asks p from t q n h r = ground arith

entry-asking :
    (p : CountdownParty) (from : Address) (n : ℕ)
    → entry (asking p from n) from ≡ record {
      state = awaiting_their_turn (repeated (entry p from).next_id);
      remaining = n;
      next_id = ((entry p from).next_id + 1) % 256;
    }
entry-asking p from n = entry_or-put from (fresh p.rounds) _ p.peers

Poses-asking :
    (p : CountdownParty) (from : Address) (n : ℕ) (q : Request)
    → Poses (asking p from n) from (next_turn (question p from n) q) q
unfolding on_incoming request_of next_turn
Poses-asking p from n q = rw (entry-asking p from n) (ground arith, refl)

asked_count :
    (n : ℕ) (qs : List Request) (p : CountdownParty) (from : Address) (t : Turn) (q : Request)
    → (entry p from).remaining ≡ n
    → n ≤ length qs
    → Poses p from t q
    → (ts : List Turn) × (dialogue p from t qs ≡ some ts) × AsksThenCloses n ts
unfolding dialogue request_of
asked_count zero [] p from t q r l h =
    (close_turn (answer_of q) ∷ [], rw (answers_last p from t q h r, dialogue), tt)
asked_count zero (q' ∷ qs) p from t q r l h =
    (close_turn (answer_of q) ∷ [], rw (answers_last p from t q h r, dialogue), tt)
asked_count (suc n) [] p from t q r l h = absurd (omega arith)
asked_count (suc n) (q' ∷ qs) p from t q r l h =
    let (ts, e, c) =
      asked_count n qs (asking p from n) from (next_turn (question p from n) q') q'
        (ap (λ (x : Countdown). x.remaining) (entry-asking p from n)) (omega arith)
        (Poses-asking p from n q') in
    (
      continue_turn (answer_of q) (question p from n) ∷ ts,
      rw (asks p from t q n h r, dialogue)
          (ap (prepend (continue_turn (answer_of q) (question p from n))) e),
      c,
    )

-- A new countdown party of `n` rounds, opened and then always answered with a further request,
-- asks exactly `n` questions of its own and then closes, for any requests of the caller and for
-- every `n` that they are enough for. So the exchange ends, and no reply is missing.
pub countdown_rounds :
    (n : ℕ) (from : Address) (q : Request) (qs : List Request)
    → n ≤ length qs
    → (ts : List Turn) × (dialogue (new_countdown n) from (open_turn q) qs ≡ some ts)
      × AsksThenCloses n ts
unfolding new_countdown on_incoming request_of get
countdown_rounds n from q qs l =
    asked_count n qs (new_countdown n) from (open_turn q) q refl l (refl, refl)
