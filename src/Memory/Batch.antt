-- ===== src/Memory/Batch.antt =====
-- crates/kamiroh-adapter-memory/src/lib.rs: what a batch tells its sender.
use kamiroh.Common.Assoc.{get, get-insert, contains_key}
use kamiroh.Memory.Sending.{get-post, get-post_other}
use kamiroh.Memory.Net.{
  open_many, Shared, post, post_all, receipt, fanned, Mailbox, is_partitioned, has_mailbox_at,
}
use kamiroh.Common.{
  [], ◌∷◌, none, some, ok, inl, inr, true, false, Bool, List, ◌≡◌, Option-cases, arith, keep, ◌++◌,
  ◌≢◌, ◌∙◌, ap, Bool-cases, sym, refl,
}
use kamiroh.Domain.Address.{EndpointId, ActorName, Address, Address-discrete}
use kamiroh.Ports.{Delivery, batch_receipt_sender}
use kamiroh.Domain.Vocabulary.{Request, turn_message, open_turn, ack_message}

abbrev pub is_bound : Shared → Address → Bool
is_bound n a = contains_key Address-discrete a n.mailboxes

abbrev pub at_endpoint : EndpointId → ActorName → Address
at_endpoint e name = record { endpoint = e; name = name }

post_unbound : (n : Shared) (d : Delivery) → is_bound n d.to ≡ false → post n d ≡ n
unfolding post contains_key
post_unbound n d h = ground arith

is_bound-post : (n : Shared) (d : Delivery) (a : Address) → is_bound (post n d) a ≡ is_bound n a
unfolding contains_key post
is_bound-post n d a = elim (Option-cases (get Address-discrete d.to n.mailboxes)) [
  | inl e ↦ rw (e, post)
  | inr (b, e) ↦ ground (
    arith,
    get-insert Address-discrete d.to a (record { queue = b.queue ++ d ∷ []; waker = none })
        n.mailboxes,
  )
]

post_all-bound :
    (p : ActorName → Bool) (names : List ActorName) (n : Shared) (from : Address) (e : EndpointId)
    (q : Request)
    → ((name : ActorName) → p name ≡ is_bound n (at_endpoint e name))
    → post_all n (fanned from e q (keep p names)) ≡ post_all n (fanned from e q names)
unfolding post_all fanned
post_all-bound p [] n from e q h = refl
post_all-bound p (name ∷ names) n from e q h =
    let d : Delivery = record {
      from = from;
      to = at_endpoint e name;
      message = turn_message (open_turn q);
    } in
    elim (Bool-cases (p name)) [
      | inl bound ↦ rw bound (
          post_all-bound p names (post n d) from e q
            (λ other. h other ∙ sym (is_bound-post n d (at_endpoint e other))))
      | inr unbound ↦ rw unbound (
          post_all-bound p names n from e q h
          ∙ ap (λ m. post_all m (fanned from e q names))
              (sym (post_unbound n d (sym (h name) ∙ unbound))))
    ]

-- A batch is blind to the roster of its endpoint: leaving out the names that are not bound changes
-- neither its result nor the network after it, while no partition holds it.
pub open_many_blind :
    (n : Shared) (from : Address) (e : EndpointId) (names : List ActorName) (q : Request)
    → is_partitioned n from.endpoint e ≡ false
    → open_many n from e (keep (λ name. is_bound n (at_endpoint e name)) names) q
      ≡ open_many n from e names q
unfolding open_many
open_many_blind n from e names q h =
    let same_posts =
      post_all-bound (λ name. is_bound n (at_endpoint e name)) names (post n (receipt from e q))
        from e q (λ name. sym (is_bound-post n (receipt from e q) (at_endpoint e name))) in
    ground (arith, same_posts)

fanned_elsewhere :
    (names : List ActorName) (n : Shared) (from a : Address) (e : EndpointId) (q : Request)
    → a.endpoint ≢ e
    → get Address-discrete a (post_all n (fanned from e q names)).mailboxes
      ≡ get Address-discrete a n.mailboxes
unfolding post_all fanned
fanned_elsewhere [] n from a e q h = refl
fanned_elsewhere (name ∷ names) n from a e q h =
    fanned_elsewhere names (post n _) from a e q h
    ∙ get-post_other n _ a (λ p. h (ap (λ (x : Address). x.endpoint) (sym p)))

-- The receipt of a batch to a live endpoint: the sender, bound elsewhere, receives exactly one ack
-- of the request, from the endpoint's own name, whichever names were called and whether or not any
-- of them is bound.
pub open_many_receipt :
    (n : Shared) (from : Address) (e : EndpointId) (names : List ActorName) (q : Request)
    (b : Mailbox)
    → get Address-discrete from n.mailboxes ≡ some b
    → from.endpoint ≢ e
    → has_mailbox_at e n.mailboxes ≡ true
    → is_partitioned n from.endpoint e ≡ false
    → let (n', result) = open_many n from e names q in
      (result ≡ ok tt)
      × (get Address-discrete from n'.mailboxes
          ≡ some (record {
            queue =
                b.queue
                ++ record {
                  from = batch_receipt_sender e;
                  to = from;
                  message = ack_message (record { id = q.id });
                }
                  ∷ [];
            waker = none;
          }))
unfolding open_many receipt
open_many_receipt n from e names q b h ne live k = ground (
  arith,
  get-post n (receipt from e q) from refl h,
  fanned_elsewhere names (post n (receipt from e q)) from from e q ne,
)
