-- ===== src/Memory/Sending.antt =====
-- crates/kamiroh-adapter-memory/src/lib.rs: what senders and receivers see of a mailbox.
use mathlib.Core.List.{append-nil, append_assoc}
use kamiroh.Common.Assoc.{get, get-insert, get-insert_self, get-remove, contains_key, insert}
use kamiroh.Memory.Net.{
  send, register, unregister, poll_next, address_in_use, unknown_address, Shared, is_partitioned,
  post, Mailbox, called, empty_mailbox,
}
use kamiroh.Common.{
  [], ◌∷◌, none, some, ok, err, inl, inr, false, zero, suc, List, ℕ, All, Option, ◌∙◌, ◌≡◌, ◌≢◌,
  arith, Option-cases, length, ◌++◌, ap, if_neg, refl,
}
use kamiroh.Ports.{Delivery, ready, pending}
use kamiroh.Domain.Address.{Address, EndpointId, Address-discrete}
use kamiroh.Domain.Vocabulary.{Message}

-- One delivery sent, whatever the answer.
unfoldable pub send_delivery : Shared → Delivery → Shared
send_delivery n d = (send n d.from d.to d.message).0

unfoldable pub send_all : Shared → List Delivery → Shared
send_all n [] = n
send_all n (d ∷ ds) = send_all (send_delivery n d) ds

-- So many polls of an inbox: the deliveries that they yield.
unfoldable pub receive : ℕ → ℕ → Shared → Address → List Delivery
receive task zero n a = []
receive task (suc k) n a =
    let (n', polled) = poll_next task n a in
    let rest : List Delivery = receive task k n' a in
    elim polled [ ready (some d) ↦ d ∷ rest | ready none ↦ rest | pending ↦ rest ]

pub get-post :
    (n : Shared) (d : Delivery) (a : Address) {b : Mailbox}
    → d.to ≡ a
    → get Address-discrete a n.mailboxes ≡ some b
    → get Address-discrete a (post n d).mailboxes
      ≡ some (record { queue = b.queue ++ d ∷ []; waker = none })
unfolding post
get-post n d a {b} e h = ground (
  arith,
  get-insert Address-discrete d.to a (record { queue = b.queue ++ d ∷ []; waker = none })
      n.mailboxes,
)

pub get-post_other :
    (n : Shared) (d : Delivery) (a : Address)
    → d.to ≢ a
    → get Address-discrete a (post n d).mailboxes ≡ get Address-discrete a n.mailboxes
unfolding post
get-post_other n d a ne = elim (Option-cases (get Address-discrete d.to n.mailboxes)) [
  | inl e ↦ rw (e, post)
  | inr (b, e) ↦
      rw (e, post)
        (get-insert Address-discrete d.to a (record { queue = b.queue ++ d ∷ []; waker = none })
            n.mailboxes
          ∙ if_neg (Address-discrete d.to a) ne _ _)
]

pub partitions-post : (n : Shared) (d : Delivery) → (post n d).partitions ≡ n.partitions
unfolding post
partitions-post n d = ground arith

-- A send that no partition holds has the effect of posting the delivery.
pub send_delivery-post :
    (n : Shared) (d : Delivery)
    → is_partitioned n d.from.endpoint d.to.endpoint ≡ false
    → send_delivery n d ≡ post n d
unfolding send_delivery send post contains_key
send_delivery-post n d h = ground arith

pub is_partitioned-post :
    (n : Shared) (d : Delivery) (a b : EndpointId)
    → is_partitioned (post n d) a b ≡ is_partitioned n a b
unfolding is_partitioned
is_partitioned-post n d a b = rw (partitions-post n d)

-- All deliveries go to one address, and no partition separates it from their senders.
abbrev pub Flows : Shared → Address → List Delivery → Type 0
Flows n a ds = All (λ d. (d.to ≡ a) × (is_partitioned n d.from.endpoint d.to.endpoint ≡ false)) ds

Flows-post :
    (n : Shared) (d : Delivery) (a : Address) (ds : List Delivery)
    → Flows n a ds
    → Flows (post n d) a ds
Flows-post n d a [] h = tt
Flows-post n d a (x ∷ ds) h = (
  (h.0.0, is_partitioned-post n d x.from.endpoint x.to.endpoint ∙ h.0.1),
  Flows-post n d a ds h.1,
)

get-send_all :
    (ds : List Delivery) (n : Shared) (a : Address) (b : Mailbox)
    → get Address-discrete a n.mailboxes ≡ some b
    → Flows n a ds
    → (w : Option ℕ) × (get Address-discrete a (send_all n ds).mailboxes
        ≡ some (record { queue = b.queue ++ ds; waker = w }))
unfolding send_all
get-send_all [] n a b h f = (b.waker, rw append-nil h)
get-send_all (d ∷ ds) n a b h f =
    rw (send_delivery-post n d f.0.1, send_all)
      (let (w, e) =
          get-send_all ds (post n d) a (record { queue = b.queue ++ d ∷ []; waker = none })
            (get-post n d a f.0.0 h) (Flows-post n d a ds f.1) in
        (w, rw (append_assoc b.queue (d ∷ []) ds) at e))

-- The network after the first delivery of a mailbox was taken.
taken : Shared → Address → List Delivery → Option ℕ → Shared
taken n a ds w = record n {
  mailboxes = insert Address-discrete a (record { queue = ds; waker = w }) n.mailboxes;
}

poll_next-queue :
    (task : ℕ) (d : Delivery) (ds : List Delivery) (n : Shared) (a : Address) (w : Option ℕ)
    → get Address-discrete a n.mailboxes ≡ some (record { queue = d ∷ ds; waker = w })
    → poll_next task n a ≡ (taken n a ds w, ready (some d))
unfolding poll_next taken
poll_next-queue task d ds n a w h = rw (h, poll_next)

receive-queue :
    (task : ℕ) (ds : List Delivery) (n : Shared) (a : Address) (w : Option ℕ)
    → get Address-discrete a n.mailboxes ≡ some (record { queue = ds; waker = w })
    → receive task (length ds) n a ≡ ds
unfolding receive taken
receive-queue task [] n a w h = refl
receive-queue task (d ∷ ds) n a w h =
    let first = poll_next-queue task d ds n a w h in
    let rest =
      receive-queue task ds (taken n a ds w) a w
        (get-insert_self Address-discrete a (record { queue = ds; waker = w }) n.mailboxes) in
    rw (first, receive) (rw first (ap (◌∷◌ d) rest))

-- First in, first out: deliveries that no partition holds, sent to a bound address in any order by
-- any senders, are received by as many polls, behind what the mailbox held before, complete and in
-- the order in which they were sent.
pub receive-send_all :
    (task : ℕ) (ds : List Delivery) (n : Shared) (a : Address) (b : Mailbox)
    → get Address-discrete a n.mailboxes ≡ some b
    → Flows n a ds
    → receive task (length (b.queue ++ ds)) (send_all n ds) a ≡ b.queue ++ ds
receive-send_all task ds n a b h f =
    let (w, e) = get-send_all ds n a b h f in
    receive-queue task (b.queue ++ ds) (send_all n ds) a w e

get-pending :
    (task : ℕ) (n : Shared) (a : Address) {n' : Shared}
    → poll_next task n a ≡ (n', pending)
    → get Address-discrete a n'.mailboxes ≡ some (record { queue = []; waker = some task })
unfolding poll_next
get-pending task n a h = ground (
  arith,
  get-insert_self Address-discrete a (record { queue = []; waker = some task }) n.mailboxes,
)

woken-post :
    (n : Shared) (d : Delivery) {b : Mailbox}
    → get Address-discrete d.to n.mailboxes ≡ some b
    → (post n d).woken ≡ n.woken ++ called b.waker
unfolding post
woken-post n d h = ground arith

next-post :
    (task : ℕ) (n : Shared) (d : Delivery) {w : Option ℕ}
    → get Address-discrete d.to n.mailboxes ≡ some (record { queue = []; waker = w })
    → (poll_next task (post n d) d.to).1 ≡ ready (some d)
unfolding poll_next
next-post task n d h = ground (arith, get-post n d d.to refl h)

-- No wake-up is lost: a receiver that found its mailbox empty is woken by the next send that no
-- partition holds, and its next poll yields that delivery.
pub pending_then_woken :
    (task : ℕ) (n : Shared) (d : Delivery) {n' : Shared}
    → poll_next task n d.to ≡ (n', pending)
    → is_partitioned n' d.from.endpoint d.to.endpoint ≡ false
    → let sent = send_delivery n' d in
      (sent.woken ≡ n'.woken ++ task ∷ []) × ((poll_next task sent d.to).1 ≡ ready (some d))
pending_then_woken task n d {n'} h k =
    let e = get-pending task n d.to h in
    rw (send_delivery-post n' d k) (woken-post n' d e, next-post task n' d e)

-- A second registration of an address fails; dropping its inbox frees the address, and a send to
-- it that no partition holds then fails and changes nothing.
pub register-unregister :
    (n : Shared) (a from : Address) (m : Message)
    → is_partitioned n from.endpoint a.endpoint ≡ false
    → ((register (register n a).0 a).1 ≡ err address_in_use)
      × ((register (unregister n a) a).1 ≡ ok tt)
      × (send (unregister n a) from a m ≡ (unregister n a, err unknown_address))
unfolding register unregister send contains_key is_partitioned
register-unregister n a from m h = (
  ground (arith, get-insert_self Address-discrete a empty_mailbox n.mailboxes),
  ground (arith, get-remove Address-discrete a a n.mailboxes),
  ground (arith, get-remove Address-discrete a a n.mailboxes),
)

-- A first delivery is posted and polled for: its mailbox is empty again, and nothing else of the
-- network has changed but the wakers that were called.
pub posted_polled :
    (task : ℕ) (n : Shared) (d : Delivery) (a : Address) {x : Option ℕ} {b : Mailbox}
    → get Address-discrete d.to n.mailboxes ≡ some (record { queue = []; waker = x })
    → get Address-discrete a n.mailboxes ≡ some b
    → d.to ≢ a
    → let (n', polled) = poll_next task (post n d) d.to in
      (polled ≡ ready (some d))
      × (get Address-discrete a n'.mailboxes ≡ some b)
      × (n'.partitions ≡ n.partitions)
unfolding taken
posted_polled task n d a h k ne =
    rw (poll_next-queue task d [] (post n d) d.to none (get-post n d d.to refl h)) (
      refl,
      get-insert Address-discrete d.to a (record { queue = []; waker = none }) (post n d).mailboxes
          ∙ if_neg (Address-discrete d.to a) ne _ _
          ∙ get-post_other n d a ne
          ∙ k,
      partitions-post n d,
    )

pub is_partitioned-same :
    (n m : Shared) (a b : EndpointId)
    → n.partitions ≡ m.partitions
    → is_partitioned n a b ≡ is_partitioned m a b
unfolding is_partitioned
is_partitioned-same n m a b h = rw h
