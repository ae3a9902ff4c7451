-- ===== src/Memory/Sleeping.antt =====
-- crates/kamiroh-adapter-memory/src/testing.rs: who is woken when the test clock moves.
use kamiroh.Memory.Clock.{TestClock, poll_sleep, advance, u128, is_due}
use mathlib.Core.List.{map-append}
use kamiroh.Common.{
  [], ◌∷◌, false, Bool, ℕ, List, ◌<◌, keep, ◌+◌, ◌++◌, ◌^◌, leb, ◌≡◌, arith, cond, refl, map, not,
  ap, ◌∙◌,
}

keep-append :
    {A : Type 0} (p : A → Bool) (xs ys : List A) → keep p (xs ++ ys) ≡ keep p xs ++ keep p ys
keep-append p [] ys = refl
keep-append p (x ∷ xs) ys = ground (arith, keep-append p xs ys)

no_wrap : (n : ℕ) → n < 2 ^ 128 → u128 n ≡ n
unfolding u128
no_wrap n h = omega arith

slept :
    (c : TestClock) (task due : ℕ)
    → c.now < due
    → poll_sleep task c due ≡ (record c { sleepers = c.sleepers ++ (due, task) ∷ [] }, false)
unfolding poll_sleep
slept c task due h = ground arith

last_woken :
    (now due task : ℕ)
    → map (λ (x : ℕ × ℕ). x.1) (keep (is_due now) ((due, task) ∷ []))
      ≡ cond (leb due now) (task ∷ []) []
last_woken now due task = ground arith

last_kept :
    (now due task : ℕ)
    → keep (λ x. not (is_due now x)) ((due, task) ∷ []) ≡ cond (leb due now) [] ((due, task) ∷ [])
last_kept now due task = ground arith

polled : (c : TestClock) (task due : ℕ) → (poll_sleep task c due).1 ≡ leb due c.now
unfolding poll_sleep
polled c task due = ground arith

-- A sleep that is not yet due when it is polled, and a later advance that does not overflow the
-- clock: the sleeping task is woken by it, once and after those that were woken anyway, or it
-- stays registered last, exactly as its instant has been reached or not; and that is also what
-- its next poll says.
pub poll_sleep-advance :
    (c : TestClock) (task due by : ℕ)
    → c.now < due
    → c.now + by < 2 ^ 128
    → let reached = leb due (c.now + by) in
      let (others, woken) = advance c by in
      let (c', woken') = advance (poll_sleep task c due).0 by in
      ((poll_sleep task c due).1 ≡ false)
      × (woken' ≡ woken ++ cond reached (task ∷ []) [])
      × (c'.sleepers ≡ others.sleepers ++ cond reached [] ((due, task) ∷ []))
      × ((poll_sleep task c' due).1 ≡ reached)
unfolding advance
poll_sleep-advance c task due by h small =
    let now = c.now + by in
    let first : ℕ × ℕ → ℕ = λ x. x.1 in
    let one : List (ℕ × ℕ) = (due, task) ∷ [] in
    rw (slept c task due h, no_wrap now small)
      (
        refl,
        ap (map first) (keep-append (is_due now) c.sleepers one)
            ∙ map-append first (keep (is_due now) c.sleepers) (keep (is_due now) one)
            ∙ ap (λ ws. map first (keep (is_due now) c.sleepers) ++ ws) (last_woken now due task),
        keep-append (λ x. not (is_due now x)) c.sleepers one
            ∙ ap (λ xs. keep (λ x. not (is_due now x)) c.sleepers ++ xs) (last_kept now due task),
        polled _ task due,
      )
