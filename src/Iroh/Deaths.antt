-- ===== src/Iroh/Deaths.antt =====
-- crates/kamiroh-adapter-iroh/src/lib.rs: what the end of a connection tells, and whom.
use kamiroh.Iroh.Shared.{Shared, DeathQueue, Serving}
use kamiroh.Common.{
  [], ◌∷◌, none, some, true, false, zero, suc, List, ℕ, map, ◌++◌, Bool, Option, cond, not, ◌&&◌,
  same, ℕ_discrete,
}
use kamiroh.Domain.Address.{EndpointId, EndpointId-discrete}
use kamiroh.Iroh.External.{External}
use kamiroh.Ports.{Poll, pending, ready}
use kamiroh.Common.Assoc.{get, remove}

-- One watcher's queue after a report, and the wakers that the report calls.
unfoldable pub reported_to : EndpointId → DeathQueue → DeathQueue
reported_to e q = record { queue = q.queue ++ e ∷ []; waker = none }

unfoldable pub wakers : List DeathQueue → List ℕ
wakers [] = []
wakers (q ∷ qs) = elim q.waker [ none ↦ wakers qs | some w ↦ w ∷ wakers qs ]

-- One poll of a queue in the task numbered `task`.
unfoldable pub take_death : ℕ → DeathQueue → DeathQueue × Poll (Option EndpointId)
take_death task q = elim q.queue [
  | [] ↦ (record q { waker = some task }, pending)
  | e ∷ es ↦ (record q { queue = es }, ready (some e))
]

unfoldable pub poll_queue : ℕ → ℕ → List DeathQueue → List DeathQueue × Poll (Option EndpointId)
poll_queue task i [] = ([], pending)
poll_queue task zero (q ∷ qs) = let (q', polled) = take_death task q in (q' ∷ qs, polled)
poll_queue task (suc i) (q ∷ qs) = let (qs', polled) = poll_queue task i qs in (q ∷ qs', polled)

module _ (E : External) where
  unfoldable pub report_death : Shared E → EndpointId → Shared E
  report_death s e = record s {
    death_watchers = map (reported_to e) s.death_watchers;
    woken = s.woken ++ wakers s.death_watchers;
  }

  -- Whether a newer connection to the same peer stands in the cache; a connection that still
  -- stands there itself is evicted.
  unfoldable pub evict : Shared E → Serving E → Shared E × Bool
  evict s w = elim (get EndpointId-discrete w.origin s.connections) [
    | none ↦ (s, false)
    | some cached ↦
        cond (same ℕ_discrete (E.stable_id cached) (E.stable_id w.connection))
          (record s { connections = remove EndpointId-discrete w.origin s.connections }, false)
          (s, true)
  ]

  -- The task of `watch_connection`, when the connection has closed.
  unfoldable pub connection_closed : Shared E → Serving E → E.ConnectionError → Shared E
  unfolding evict report_death
  connection_closed s w reason =
      let (s', superseded) = evict s w in
      cond (not superseded && not (E.locally_closed reason)) (report_death s' w.origin) s'

  -- `IrohDeathWatch::next_death`, polled: the watch is the position of its queue.
  unfoldable pub next_death : ℕ → ℕ → Shared E → Shared E × Poll (Option EndpointId)
  unfolding poll_queue
  next_death task i s =
      let (qs, polled) = poll_queue task i s.death_watchers in
      (record s { death_watchers = qs }, polled)
