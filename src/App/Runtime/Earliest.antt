-- ===== src/App/Runtime/Earliest.antt =====
-- crates/kamiroh-app/src/runtime.rs: `earliest_due` and the waits that are armed.
use kamiroh.App.Runtime.Due.{Due, better, ack_instant, earliest_from, earliest_due}
use kamiroh.App.Runtime.{PeerState, LocalActor}
use kamiroh.Common.Assoc.{AllEntries}
use kamiroh.Common.{[], ◌∷◌, none, some, inl, inr, List, Option, ℕ, ◌≡◌, arith, ◌≤◌, ◌⊎◌, refl}
use kamiroh.Domain.Deadline.{DeadlineKind, ack_wait, turn_wait}
use kamiroh.Domain.Address.{Address}

-- No armed wait is before the deadline; without a deadline none is armed.
abbrev pub AtMost : Option Due → Option ℕ → Type 0
AtMost due none = Unit
AtMost none (some at) = ⊥
AtMost (some (peer, kind, e)) (some at) = e ≤ at

abbrev pub instant_of : DeadlineKind → PeerState → Option ℕ
instant_of ack_wait ps = ack_instant ps.ack_due
instant_of turn_wait ps = ps.turn_due

-- The deadline is the instant of a wait of its kind of that peer's conversation.
abbrev pub IsArmedIn : List (Address × PeerState) → Due → Type 0
IsArmedIn [] due = ⊥
IsArmedIn ((peer, ps) ∷ m) (p, kind, at) =
    ((peer ≡ p) × (instant_of kind ps ≡ some at)) ⊎ IsArmedIn m (p, kind, at)

abbrev pub IsAttained : List (Address × PeerState) → Option Due → Type 0
IsAttained m none = Unit
IsAttained m (some due) = IsArmedIn m due

abbrev pub WaitsAtMost : Option Due → PeerState → Type 0
WaitsAtMost due ps = AtMost due (ack_instant ps.ack_due) × AtMost due ps.turn_due

better-AtMost :
    (peer : Address) (kind : DeadlineKind) (x : Option ℕ) (best : Option Due)
    → AtMost (better peer kind x best) x
unfolding better
better-AtMost peer kind x best = ground arith

better-AtMost_kept :
    (peer : Address) (kind : DeadlineKind) (x : Option ℕ) (best : Option Due) (y : Option ℕ)
    → AtMost best y
    → AtMost (better peer kind x best) y
unfolding better
better-AtMost_kept peer kind x best y h = ground arith

earliest_from-AtMost :
    (m : List (Address × PeerState)) (best : Option Due) (y : Option ℕ)
    → AtMost best y
    → AtMost (earliest_from m best) y
unfolding earliest_from
earliest_from-AtMost [] best y h = h
earliest_from-AtMost ((peer, ps) ∷ m) best y h =
    let acked = better peer ack_wait (ack_instant ps.ack_due) best in
    earliest_from-AtMost m (better peer turn_wait ps.turn_due acked) y (
      better-AtMost_kept peer turn_wait ps.turn_due acked y
        (better-AtMost_kept peer ack_wait (ack_instant ps.ack_due) best y h))

earliest_from-WaitsAtMost :
    (m : List (Address × PeerState)) (best : Option Due)
    → AllEntries (λ _ ps. WaitsAtMost (earliest_from m best) ps) m
unfolding earliest_from
earliest_from-WaitsAtMost [] best = tt
earliest_from-WaitsAtMost ((peer, ps) ∷ m) best =
    let acked = better peer ack_wait (ack_instant ps.ack_due) best in
    let turned = better peer turn_wait ps.turn_due acked in
    (
      (
        earliest_from-AtMost m turned (ack_instant ps.ack_due) (
            better-AtMost_kept peer turn_wait ps.turn_due acked (ack_instant ps.ack_due)
              (better-AtMost peer ack_wait (ack_instant ps.ack_due) best)),
        earliest_from-AtMost m turned ps.turn_due (better-AtMost peer turn_wait ps.turn_due acked),
      ),
      earliest_from-WaitsAtMost m turned,
    )

-- A deadline is one of the best so far, or one of the first conversation.
better_from :
    (peer : Address) (ps : PeerState) (best : Option Due) (p : Address) (k : DeadlineKind) (e : ℕ)
    → better peer turn_wait ps.turn_due (better peer ack_wait (ack_instant ps.ack_due) best)
      ≡ some (p, k, e)
    → (best ≡ some (p, k, e)) ⊎ ((peer ≡ p) × (instant_of k ps ≡ some e))
unfolding better
better_from peer ps best p k e h = ground arith

earliest_from-IsArmedIn :
    (m : List (Address × PeerState)) (best : Option Due) (p : Address) (k : DeadlineKind) (e : ℕ)
    → earliest_from m best ≡ some (p, k, e)
    → (best ≡ some (p, k, e)) ⊎ IsArmedIn m (p, k, e)
unfolding earliest_from
earliest_from-IsArmedIn [] best p k e h = inl h
earliest_from-IsArmedIn ((peer, ps) ∷ m) best p k e h = elim (earliest_from-IsArmedIn m _ p k e h) [
  | inr later ↦ inr (inr later)
  | inl now ↦ elim (better_from peer ps best p k e now) [
    | inl before ↦ inl before
    | inr here ↦ inr (inl here)
  ]
]

-- The earliest deadline of an actor is one of the waits armed in its conversations, for that peer
-- and of that kind, and no wait of any conversation ends before it; when it is `none`, no
-- conversation has a wait armed.
pub earliest_due_earliest :
    {P : Type 0} (a : LocalActor P)
    → IsAttained a.conversations (earliest_due a)
      × AllEntries (λ _ ps. WaitsAtMost (earliest_due a) ps) a.conversations
unfolding earliest_due
earliest_due_earliest a = (attained (earliest_due a) refl, earliest_from-WaitsAtMost _ none)
  where
    attained : (due : Option Due) → earliest_due a ≡ due → IsAttained a.conversations due
    attained none h = tt
    attained (some (p, k, e)) h = elim (earliest_from-IsArmedIn _ none p k e h) [
      | inl none_some ↦ ground arith
      | inr armed ↦ armed
    ]
