-- ===== src/Memory/Kills.antt =====
-- crates/kamiroh-adapter-memory/src/lib.rs: kills, as receivers, senders and watches see them.
use kamiroh.Common.Assoc.{get, contains_key}
use kamiroh.Memory.Faults.{bound_elsewhere, poll_death, kill_endpoint, poll_queue, notified}
use kamiroh.Memory.Net.{
  send, poll_next, unknown_address, Shared, DeathQueue, Mailbox, is_partitioned,
}
use kamiroh.Common.{
  [], ◌∷◌, none, some, err, false, zero, suc, ℕ, List, ◌<◌, length, ◌≡◌, ite, map, ◌≢◌, arith,
}
use kamiroh.Domain.Address.{EndpointId, Address, Address-discrete, EndpointId-discrete}
use kamiroh.Domain.Vocabulary.{Message}
use kamiroh.Ports.{pending, ready}

get-bound_elsewhere :
    (e : EndpointId) (a : Address) (m : List (Address × Mailbox))
    → get Address-discrete a (bound_elsewhere e m)
      ≡ ite (EndpointId-discrete a.endpoint e) none (get Address-discrete a m)
unfolding get bound_elsewhere
get-bound_elsewhere e a [] = ground arith
get-bound_elsewhere e a ((b, x) ∷ m) = ground (arith, get-bound_elsewhere e a m)

-- A kill removes exactly the mailboxes of the endpoint: its receivers see their inboxes closed, a
-- send to it that no partition holds fails, and every other mailbox keeps its contents.
pub kill_endpoint_lem :
    (n : Shared) (a from other : Address) (m : Message) (task : ℕ)
    → is_partitioned n from.endpoint a.endpoint ≡ false
    → other.endpoint ≢ a.endpoint
    → let n' = kill_endpoint n a.endpoint in
      ((poll_next task n' a).1 ≡ ready none)
      × (send n' from a m ≡ (n', err unknown_address))
      × (get Address-discrete other n'.mailboxes ≡ get Address-discrete other n.mailboxes)
unfolding kill_endpoint poll_next send contains_key
kill_endpoint_lem n a from other m task h ne = (
  ground (arith, get-bound_elsewhere a.endpoint a n.mailboxes),
  ground (arith, get-bound_elsewhere a.endpoint a n.mailboxes),
  ground (arith, get-bound_elsewhere a.endpoint other n.mailboxes),
)

poll_queue-notified :
    (task i : ℕ) (e : EndpointId) (qs : List DeathQueue)
    → i < length qs
    → (poll_queue task i qs).1 ≡ pending
    → (poll_queue task i (map (notified e) (poll_queue task i qs).0)).1 ≡ ready (some e)
unfolding poll_queue
poll_queue-notified task i e [] l h = absurd (omega arith)
poll_queue-notified task zero e (q ∷ qs) l h = ground arith
poll_queue-notified task (suc i) e (q ∷ qs) l h = poll_queue-notified task i e qs (omega arith) h

-- Every death watch that had nothing to report reports, at its next poll, an endpoint that is
-- killed in between.
pub kill_endpoint_reported :
    (n : Shared) (e : EndpointId) (task i : ℕ)
    → i < length n.death_watchers
    → (poll_death task i n).1 ≡ pending
    → (poll_death task i (kill_endpoint (poll_death task i n).0 e)).1 ≡ ready (some e)
unfolding kill_endpoint poll_death
kill_endpoint_reported n e task i l h = poll_queue-notified task i e n.death_watchers l h
