-- ===== src/Memory/Faults.antt =====
-- crates/kamiroh-adapter-memory/src/lib.rs: kills, partitions and death watches.
use kamiroh.Common.Sets.{insert, remove}
use kamiroh.Ports.{pending, ready, Delivery, Poll}
use kamiroh.Common.{
  [], ◌∷◌, List, ℕ, map, ◌++◌, Bool, Option, keep, none, length, not, same, some, suc, zero, ◌&&◌,
  ◌||◌,
}
use kamiroh.Domain.Address.{EndpointId, Address, EndpointId-discrete}
use kamiroh.Memory.Net.{Shared, DeathQueue, Pair-discrete, post_all, Mailbox, called}

-- The addresses at an endpoint, and the mailboxes elsewhere.
unfoldable pub bound_at : EndpointId → List (Address × Mailbox) → List (Address × Mailbox)
bound_at e = keep λ x. same EndpointId-discrete x.0.endpoint e

unfoldable pub bound_elsewhere : EndpointId → List (Address × Mailbox) → List (Address × Mailbox)
bound_elsewhere e = keep λ x. not (same EndpointId-discrete x.0.endpoint e)

abbrev wakers_of : List (Address × Mailbox) → List ℕ
wakers_of [] = []
wakers_of ((a, b) ∷ m) = called b.waker ++ wakers_of m

-- The report to one death queue.
abbrev pub notified : EndpointId → DeathQueue → DeathQueue
notified e q = record { queue = q.queue ++ e ∷ []; waker = none }

abbrev watchers_wakers : List DeathQueue → List ℕ
watchers_wakers [] = []
watchers_wakers (q ∷ qs) = called q.waker ++ watchers_wakers qs

-- `kill_endpoint`.
unfoldable pub kill_endpoint : Shared → EndpointId → Shared
unfolding bound_at bound_elsewhere
kill_endpoint n e = record n {
  mailboxes = bound_elsewhere e n.mailboxes;
  death_watchers = map (notified e) n.death_watchers;
  woken = (n.woken ++ wakers_of (bound_at e n.mailboxes)) ++ watchers_wakers n.death_watchers;
}

unfoldable pub partition : Shared → EndpointId → EndpointId → Shared
partition n a b = record n {
  partitions = insert Pair-discrete (b, a) (insert Pair-discrete (a, b) n.partitions);
}

-- Whether a held delivery is between two endpoints.
unfoldable pub is_between : EndpointId → EndpointId → Delivery → Bool
is_between a b d =
    (same EndpointId-discrete d.from.endpoint a && same EndpointId-discrete d.to.endpoint b)
    || (same EndpointId-discrete d.from.endpoint b && same EndpointId-discrete d.to.endpoint a)

unfoldable pub heal : Shared → EndpointId → EndpointId → Shared
heal n a b =
    post_all
      (record n {
        partitions = remove Pair-discrete (b, a) (remove Pair-discrete (a, b) n.partitions);
        held = keep (λ d. not (is_between a b d)) n.held;
      })
      (keep (is_between a b) n.held)

-- `death_watch`: the new handle is the position of the new queue.
unfoldable pub death_watch : Shared → Shared × ℕ
death_watch n = (
  record n { death_watchers = n.death_watchers ++ record { queue = []; waker = none } ∷ [] },
  length n.death_watchers,
)

abbrev take_death : ℕ → DeathQueue → DeathQueue × Poll (Option EndpointId)
take_death task q = elim q.queue [
  | [] ↦ (record q { waker = some task }, pending)
  | e ∷ es ↦ (record q { queue = es }, ready (some e))
]

-- `NextDeath::poll` at the queue numbered `i`, in the task numbered `task`.
unfoldable pub poll_queue : ℕ → ℕ → List DeathQueue → List DeathQueue × Poll (Option EndpointId)
poll_queue task i [] = ([], pending)
poll_queue task zero (q ∷ qs) = let (q', polled) = take_death task q in (q' ∷ qs, polled)
poll_queue task (suc i) (q ∷ qs) = let (qs', polled) = poll_queue task i qs in (q ∷ qs', polled)

unfoldable pub poll_death : ℕ → ℕ → Shared → Shared × Poll (Option EndpointId)
unfolding poll_queue
poll_death task i n =
    let (qs, polled) = poll_queue task i n.death_watchers in
    (record n { death_watchers = qs }, polled)
