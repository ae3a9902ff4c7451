-- ===== src/App/Wait/Race.antt =====
-- crates/kamiroh-app/src/wait.rs: who wins a race, and what the losers keep.
use kamiroh.Common.{[], ◌∷◌, none, true, false, Bool, List, ◌≢◌, arith, some, Option, ℕ, ◌≡◌}
use kamiroh.Ports.{Inbox, Timer, DeathWatch, ready, pending}
use kamiroh.App.Wait.{
  next_timed, next_or_deadline_or_death, poll_watching, elapsed, poll_timed, peer_death,
}
use kamiroh.Domain.Address.{Address, EndpointId}

module _ {S : Type 0} (inbox : Inbox S) (timer : Timer S) where
  -- Without a deadline a wait never reports one.
  next_timed-unarmed :
      (me : Address) (wakeups : List (S → S)) (s : S)
      → (next_timed inbox timer me none wakeups s).1 ≢ ready elapsed
  unfolding next_timed
  next_timed-unarmed me [] s h = ground arith
  next_timed-unarmed me (wake ∷ wakeups) s h =
      ground (arith, next_timed-unarmed me wakeups (wake (poll_timed inbox timer me none s).0))

  module _ (deaths : DeathWatch S) where
    -- Nor with a death watch.
    poll_watching-unarmed :
        (me : Address) (watching : Bool) (s : S)
        → (poll_watching inbox timer deaths me none watching s).2 ≢ ready elapsed
    unfolding poll_watching
    poll_watching-unarmed me true s h = ground arith
    poll_watching-unarmed me false s h = ground arith

    next_or_deadline_or_death-unarmed :
        (me : Address) (watching : Bool) (wakeups : List (S → S)) (s : S)
        → (next_or_deadline_or_death inbox timer deaths me none watching wakeups s).1
          ≢ ready elapsed
    unfolding next_or_deadline_or_death
    next_or_deadline_or_death-unarmed me watching [] s h = poll_watching-unarmed me watching s h
    next_or_deadline_or_death-unarmed me watching (wake ∷ wakeups) s h = ground (
      arith,
      poll_watching-unarmed me watching s,
      next_or_deadline_or_death-unarmed me (poll_watching inbox timer deaths me none watching s).1
          wakeups (wake (poll_watching inbox timer deaths me none watching s).0),
    )

    -- Dead-first: a death that the first poll of the watch reports ends the wait whatever the clock
    -- and the inbox hold, and leaves both unpolled.
    pub death_wins :
        (me : Address) (at : Option ℕ) (wakeups : List (S → S)) (s : S) {w : S} {e : EndpointId}
        → deaths.poll_death s ≡ (w, ready (some e))
        → next_or_deadline_or_death inbox timer deaths me at true wakeups s
          ≡ (w, ready (peer_death e))
    unfolding next_or_deadline_or_death poll_watching
    death_wins me at [] s h = ground arith
    death_wins me at (wake ∷ wakeups) s h = ground arith

    -- When the first poll of the watch has no death to report, an elapsed deadline ends the wait and
    -- leaves the inbox unpolled.
    pub deadline_wins :
        (me : Address) (at : ℕ) (wakeups : List (S → S)) (s : S) {w w' : S}
        → deaths.poll_death s ≡ (w, pending)
        → timer.poll_sleep w at ≡ (w', true)
        → next_or_deadline_or_death inbox timer deaths me (some at) true wakeups s
          ≡ (w', ready elapsed)
    unfolding next_or_deadline_or_death poll_watching poll_timed
    deadline_wins me at [] s h k = ground arith
    deadline_wins me at (wake ∷ wakeups) s h k = ground arith

  -- A wait with no deadline never reports one, with or without a death watch, through any number
  -- of wakeups: the `expect` on the due deadline is never reached unarmed.
  pub unarmed_never_elapses :
      (deaths : DeathWatch S) (me : Address) (watching : Bool) (wakeups : List (S → S)) (s : S)
      → ((next_timed inbox timer me none wakeups s).1 ≢ ready elapsed)
        × ((next_or_deadline_or_death inbox timer deaths me none watching wakeups s).1
            ≢ ready elapsed)
  unarmed_never_elapses deaths me watching wakeups s = (
    next_timed-unarmed me wakeups s,
    next_or_deadline_or_death-unarmed deaths me watching wakeups s,
  )
