-- ===== src/App/Wait.antt =====
-- crates/kamiroh-app/src/wait.rs: waiting for a delivery, a deadline or a death.
-- A wait polls its futures, and between two polls the world moves on: `wakeups` are those moves,
-- in order. A wait that is still pending when they are used up returns `pending`.
pub mod Race
use kamiroh.Common.{[], ◌∷◌, Option, ℕ, Bool, List, cond, some, true, false, none}
use kamiroh.Ports.{Inbox, Poll, Delivery, Timer, DeathWatch, ready, pending}
use kamiroh.Domain.Address.{Address, EndpointId}

pub data Waited : Type 0 where
  waited_delivery : Option Delivery → Waited
  elapsed : Waited
  peer_death : EndpointId → Waited

-- The last future of each race.
abbrev poll_delivery : {S : Type 0} → S × Poll (Option Delivery) → S × Poll Waited
poll_delivery (s, pending) = (s, pending)
poll_delivery (s, ready d) = (s, ready (waited_delivery d))

module _ {S : Type 0} (inbox : Inbox S) (timer : Timer S) where
  -- The closure of `next_or_deadline`: the deadline is polled first, and an elapsed one leaves
  -- the inbox unpolled.
  unfoldable pub poll_deadline : Address → ℕ → S → S × Poll Waited
  poll_deadline me at s =
      let (s', due) = timer.poll_sleep s at in
      cond due (s', ready elapsed) (poll_delivery (inbox.poll_next s' me))

  -- An absent deadline waits forever.
  unfoldable pub poll_timed : Address → Option ℕ → S → S × Poll Waited
  unfolding poll_deadline
  poll_timed me none s = poll_delivery (inbox.poll_next s me)
  poll_timed me (some at) s = poll_deadline me at s

  -- `inbox.next().await` (no deadline) and `next_or_deadline` (a deadline).
  unfoldable pub next_timed : Address → Option ℕ → List (S → S) → S → S × Poll Waited
  unfolding poll_timed
  next_timed me at [] s = poll_timed me at s
  next_timed me at (wake ∷ wakeups) s =
      let (s', polled) = poll_timed me at s in
      elim polled [ ready w ↦ (s', ready w) | pending ↦ next_timed me at wakeups (wake s') ]

  unfoldable pub next_or_deadline : Address → ℕ → List (S → S) → S → S × Poll Waited
  unfolding next_timed
  next_or_deadline me at = next_timed me (some at)

  module _ (deaths : DeathWatch S) where
    -- The closure of `next_or_deadline_or_death`, with its captured flag `watching`.
    after_death : Address → Option ℕ → S × Poll (Option EndpointId) → S × Bool × Poll Waited
    unfolding poll_timed
    after_death me at (s, ready (some e)) = (s, true, ready (peer_death e))
    after_death me at (s, ready none) = let (s', polled) = poll_timed me at s in (s', false, polled)
    after_death me at (s, pending) = let (s', polled) = poll_timed me at s in (s', true, polled)

    unfoldable pub poll_watching : Address → Option ℕ → Bool → S → S × Bool × Poll Waited
    unfolding after_death
    poll_watching me at true s = after_death me at (deaths.poll_death s)
    poll_watching me at false s = let (s', polled) = poll_timed me at s in (s', false, polled)

    unfoldable pub next_or_deadline_or_death :
        Address → Option ℕ → Bool → List (S → S) → S → S × Poll Waited
    unfolding poll_watching
    next_or_deadline_or_death me at watching [] s =
        let (s', watching', polled) = poll_watching me at watching s in (s', polled)
    next_or_deadline_or_death me at watching (wake ∷ wakeups) s =
        let (s', watching', polled) = poll_watching me at watching s in
        elim polled [
          | ready w ↦ (s', ready w)
          | pending ↦ next_or_deadline_or_death me at watching' wakeups (wake s')
        ]
