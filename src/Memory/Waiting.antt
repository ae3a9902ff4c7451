-- ===== src/Memory/Waiting.antt =====
-- wait.rs of crates/kamiroh-app over crates/kamiroh-adapter-memory: the outcome of a race in
-- terms of the clock and the mailbox.
use kamiroh.Memory.Clock.{poll_sleep}
use kamiroh.Common.{[], ◌∷◌, ℕ, List, ◌≤◌, ◌≡◌, arith}
use kamiroh.App.Wait.{next_or_deadline, elapsed}
use kamiroh.Domain.Address.{Address}
use kamiroh.Memory.World.{Sim, memory_inbox, test_timer}
use kamiroh.Ports.{ready}

-- A deadline that the clock has reached wins over whatever lies in the mailbox, and the mailbox
-- keeps it: the wait reports the deadline and changes nothing.
pub elapsed_deadline_wins :
    (task at : ℕ) (me : Address) (wakeups : List (Sim → Sim)) (s : Sim)
    → at ≤ s.clock.now
    → next_or_deadline (memory_inbox task) (test_timer task) me at wakeups s ≡ (s, ready elapsed)
unfolding next_or_deadline poll_sleep
elapsed_deadline_wins task at me [] s h = ground arith
elapsed_deadline_wins task at me (wake ∷ wakeups) s h = ground arith
