-- ===== src/Memory/Clock.antt =====
-- crates/kamiroh-adapter-memory/src/testing.rs: `TestTimer`, a clock that moves when it is told.
-- Instants are `u128` numbers of nanoseconds; sums wrap around as a release build's do.
use kamiroh.Common.{
  [], ◌∷◌, ℕ, Bool, List, ◌%◌, ◌+◌, cond, keep, leb, ◌^◌, not, true, map, ◌++◌, false,
}

pub record TestClock : Type 0 where
  pub now : ℕ
  pub sleepers : List (ℕ × ℕ)

unfoldable pub u128 : ℕ → ℕ
u128 n = n % 2 ^ 128

-- `impl Add<Duration> for TestInstant`.
unfoldable pub after : ℕ → ℕ → ℕ
after at d = u128 (at + d)

unfoldable pub new : TestClock
new = record { now = 0; sleepers = [] }

abbrev pub is_due : ℕ → ℕ × ℕ → Bool
is_due now (at, task) = leb at now

-- The clock after `advance`, and the tasks that it wakes.
unfoldable pub advance : TestClock → ℕ → TestClock × List ℕ
advance c by =
    let now = u128 (c.now + by) in
    (
      record { now = now; sleepers = keep (λ x. not (is_due now x)) c.sleepers },
      map (λ (x : ℕ × ℕ). x.1) (keep (is_due now) c.sleepers),
    )

-- `TestSleep::poll`.
unfoldable pub poll_sleep : ℕ → TestClock → ℕ → TestClock × Bool
poll_sleep task c due =
    cond (leb due c.now) (c, true) (record c { sleepers = c.sleepers ++ (due, task) ∷ [] }, false)
