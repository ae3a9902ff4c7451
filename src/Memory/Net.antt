-- ===== src/Memory/Net.antt =====
-- crates/kamiroh-adapter-memory/src/lib.rs: mailboxes, registration, sending and receiving.
-- The state behind `Arc<Mutex<Shared>>` is passed along. A waker is the number of the task it
-- wakes, and `woken` lists the wakers that were called, oldest first.
use kamiroh.Common.Assoc.{insert, get, remove, contains_key}
use kamiroh.Common.Sets.{contains}
use kamiroh.Ports.{pending, ready, Delivery, Poll, batch_receipt_sender}
use kamiroh.Common.{
  [], ◌∷◌, List, Option, none, ℕ, Bool, Result, some, any, cond, ◌++◌, err, not, ok, same,
}
use kamiroh.Domain.Address.{Address, EndpointId, ActorName, Address-discrete, EndpointId-discrete}
use kamiroh.Domain.Vocabulary.{Message, Request, turn_message, ack_message, open_turn}

pub record Mailbox : Type 0 where
  pub queue : List Delivery
  pub waker : Option ℕ

pub record DeathQueue : Type 0 where
  pub queue : List EndpointId
  pub waker : Option ℕ

-- A `MemoryDeathWatch` is its position in `death_watchers`.
pub record Shared : Type 0 where
  pub mailboxes : List (Address × Mailbox)
  pub partitions : List (EndpointId × EndpointId)
  pub held : List Delivery
  pub death_watchers : List DeathQueue
  pub woken : List ℕ

pub data MemoryTransportError : Type 0 where
  unknown_address : MemoryTransportError

pub data RegisterError : Type 0 where
  address_in_use : RegisterError

pub Pair-discrete : Discrete (EndpointId × EndpointId)
Pair-discrete = hlevel EndpointId-discrete

-- `Mailbox::default` and `MemoryNet::new`.
abbrev pub empty_mailbox : Mailbox
empty_mailbox = record { queue = []; waker = none }

unfoldable pub new : Shared
new = record { mailboxes = []; partitions = []; held = []; death_watchers = []; woken = [] }

unfoldable pub register : Shared → Address → Shared × Result (Unit {0}) RegisterError
register n a =
    cond (contains_key Address-discrete a n.mailboxes) (n, err address_in_use)
      (record n { mailboxes = insert Address-discrete a empty_mailbox n.mailboxes }, ok tt)

-- `impl Drop for MemoryInbox`.
unfoldable pub unregister : Shared → Address → Shared
unregister n a = record n { mailboxes = remove Address-discrete a n.mailboxes }

-- What `waker.take()` and `wake()` do.
abbrev pub called : Option ℕ → List ℕ
called none = []
called (some w) = w ∷ []

-- `get_mut(&delivery.to)`, `push_back` and the wake-up; an address with no mailbox loses it.
unfoldable pub post : Shared → Delivery → Shared
post n d = elim (get Address-discrete d.to n.mailboxes) [
  | none ↦ n
  | some b ↦ record n {
    mailboxes =
        insert Address-discrete d.to (record { queue = b.queue ++ d ∷ []; waker = none })
          n.mailboxes;
    woken = n.woken ++ called b.waker;
  }
]

unfoldable pub post_all : Shared → List Delivery → Shared
post_all n [] = n
post_all n (d ∷ ds) = post_all (post n d) ds

unfoldable pub is_partitioned : Shared → EndpointId → EndpointId → Bool
is_partitioned n a b = contains Pair-discrete (a, b) n.partitions

-- `MemoryTransport::send`.
unfoldable pub send :
    Shared → Address → Address → Message → Shared × Result (Unit {0}) MemoryTransportError
unfolding is_partitioned
send n from to m =
    let d : Delivery = record { from = from; to = to; message = m } in
    cond (is_partitioned n from.endpoint to.endpoint) (record n { held = n.held ++ d ∷ [] }, ok tt)
      (cond (contains_key Address-discrete to n.mailboxes) (post n d, ok tt)
        (n, err unknown_address))

unfoldable pub has_mailbox_at : EndpointId → List (Address × Mailbox) → Bool
has_mailbox_at e m = any (λ x. same EndpointId-discrete x.0.endpoint e) m

-- The receipt of a batch, and its deliveries.
unfoldable pub receipt : Address → EndpointId → Request → Delivery
receipt from e q = record {
  from = batch_receipt_sender e;
  to = from;
  message = ack_message (record { id = q.id });
}

unfoldable pub fanned : Address → EndpointId → Request → List ActorName → List Delivery
fanned from e q [] = []
fanned from e q (name ∷ names) =
    record {
      from = from;
      to = record { endpoint = e; name = name };
      message = turn_message (open_turn q);
    }
    ∷ fanned from e q names

-- `MemoryTransport::open_many`.
unfoldable pub open_many :
    Shared
    → Address
    → EndpointId
    → List ActorName
    → Request
    → Shared × Result (Unit {0}) MemoryTransportError
unfolding has_mailbox_at is_partitioned
open_many n from e names q =
    cond (not (has_mailbox_at e n.mailboxes)) (n, err unknown_address)
      (cond (is_partitioned n from.endpoint e)
        (record n { held = (n.held ++ receipt from e q ∷ []) ++ fanned from e q names }, ok tt)
        (post_all (post n (receipt from e q)) (fanned from e q names), ok tt))

-- What a poll of an inbox answers, and the mailbox after it.
abbrev take_front : ℕ → Mailbox → Mailbox × Poll (Option Delivery)
take_front task b = elim b.queue [
  | [] ↦ (record b { waker = some task }, pending)
  | d ∷ ds ↦ (record b { queue = ds }, ready (some d))
]

-- `NextDelivery::poll` in the task numbered `task`.
unfoldable pub poll_next : ℕ → Shared → Address → Shared × Poll (Option Delivery)
poll_next task n a = elim (get Address-discrete a n.mailboxes) [
  | none ↦ (n, ready none)
  | some b ↦
      let (b', polled) = take_front task b in
      (record n { mailboxes = insert Address-discrete a b' n.mailboxes }, polled)
]
