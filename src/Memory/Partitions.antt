-- ===== src/Memory/Partitions.antt =====
-- crates/kamiroh-adapter-memory/src/lib.rs: sending across a partition that heals.
use kamiroh.Common.Sets.{insert, remove, contains-insert}
use mathlib.Core.List.{append-nil, append_assoc}
use kamiroh.Memory.Sending.{send_all, send_delivery, send_delivery-post, is_partitioned-post}
use kamiroh.Memory.Net.{send, Shared, is_partitioned, post, post_all, Pair-discrete}
use kamiroh.Common.{
  [], ◌∷◌, true, false, List, All, Bool, keep, ◌≡◌, ap, arith, refl, ◌++◌, ◌∙◌, ap₂, sym, not,
}
use kamiroh.Domain.Address.{EndpointId}
use kamiroh.Memory.Faults.{heal, is_between, partition}
use kamiroh.Ports.{Delivery}

abbrev IsBetween : EndpointId → EndpointId → List Delivery → Type 0
IsBetween a b ds = All (λ d. is_between a b d ≡ true) ds

abbrev IsApart : EndpointId → EndpointId → List Delivery → Type 0
IsApart a b ds = All (λ d. is_between a b d ≡ false) ds

abbrev IsClear : Shared → EndpointId → EndpointId → Type 0
IsClear n a b = (is_partitioned n a b ≡ false) × (is_partitioned n b a ≡ false)

-- The same network with other partitions and other deliveries held back.
abbrev with_held : Shared → List (EndpointId × EndpointId) → List Delivery → Shared
with_held n ps ds = record n { partitions = ps; held = ds }

post-with_held :
    (n : Shared) (d : Delivery) (ps : List (EndpointId × EndpointId)) (hs : List Delivery)
    → post (with_held n ps hs) d ≡ with_held (post n d) ps hs
unfolding post
post-with_held n d ps hs = ground arith

post_all-with_held :
    (ds : List Delivery) (n : Shared) (ps : List (EndpointId × EndpointId)) (hs : List Delivery)
    → post_all (with_held n ps hs) ds ≡ with_held (post_all n ds) ps hs
unfolding post_all
post_all-with_held [] n ps hs = refl
post_all-with_held (d ∷ ds) n ps hs =
    rw (post-with_held n d ps hs, post_all) (post_all-with_held ds (post n d) ps hs)

-- A delivery between two endpoints, sent across the partition of the two, is held.
holds :
    (n : Shared) (a b : EndpointId) (d : Delivery)
    → is_between a b d ≡ true
    → is_partitioned n a b ≡ true
    → is_partitioned n b a ≡ true
    → send_delivery n d ≡ record n { held = n.held ++ d ∷ [] }
unfolding send_delivery send is_between
holds n a b d h k l = ground arith

held_partitioned :
    (n : Shared) (hs : List Delivery) (a b : EndpointId)
    → is_partitioned (record n { held = hs }) a b ≡ is_partitioned n a b
unfolding is_partitioned
held_partitioned n hs a b = refl

holds_all :
    (ds : List Delivery) (n : Shared) (a b : EndpointId)
    → IsBetween a b ds
    → is_partitioned n a b ≡ true
    → is_partitioned n b a ≡ true
    → send_all n ds ≡ record n { held = n.held ++ ds }
unfolding send_all
holds_all [] n a b h k l = rw append-nil
holds_all (d ∷ ds) n a b h k l =
    let n' : Shared = record n { held = n.held ++ d ∷ [] } in
    rw (holds n a b d h.0 k l, send_all)
      (holds_all ds n' a b h.1 (held_partitioned n _ a b ∙ k) (held_partitioned n _ b a ∙ l)
        ∙ ap (with_held n n.partitions) (append_assoc n.held (d ∷ []) ds))

clear_between :
    (n : Shared) (a b : EndpointId) (d : Delivery)
    → is_between a b d ≡ true
    → IsClear n a b
    → is_partitioned n d.from.endpoint d.to.endpoint ≡ false
unfolding is_between
clear_between n a b d h c = ground arith

flows_all :
    (ds : List Delivery) (n : Shared) (a b : EndpointId)
    → IsBetween a b ds
    → IsClear n a b
    → send_all n ds ≡ post_all n ds
unfolding send_all post_all
flows_all [] n a b h c = refl
flows_all (d ∷ ds) n a b h c =
    rw (send_delivery-post n d (clear_between n a b d h.0 c), send_all, post_all)
      (flows_all ds (post n d) a b h.1
        (is_partitioned-post n d a b ∙ c.0, is_partitioned-post n d b a ∙ c.1))

keep_none : (a b : EndpointId) (ds : List Delivery) → IsApart a b ds → keep (is_between a b) ds ≡ []
keep_none a b [] h = refl
keep_none a b (d ∷ ds) h = rw h.0 (keep_none a b ds h.1)

keep_all :
    (a b : EndpointId) (ds : List Delivery) → IsBetween a b ds → keep (is_between a b) ds ≡ ds
keep_all a b [] h = refl
keep_all a b (d ∷ ds) h = rw h.0 (ap (◌∷◌ d) (keep_all a b ds h.1))

keep-append :
    (p : Delivery → Bool) (xs ys : List Delivery) → keep p (xs ++ ys) ≡ keep p xs ++ keep p ys
keep-append p [] ys = refl
keep-append p (x ∷ xs) ys = ground (arith, keep-append p xs ys)

partition_partitioned :
    (n : Shared) (a b : EndpointId)
    → (is_partitioned (partition n a b) a b ≡ true) × (is_partitioned (partition n a b) b a ≡ true)
unfolding is_partitioned partition
partition_partitioned n a b = (
  ground (
    arith,
    contains-insert Pair-discrete (b, a) (a, b) (insert Pair-discrete (a, b) n.partitions),
    contains-insert Pair-discrete (a, b) (a, b) n.partitions,
  ),
  ground (
    arith,
    contains-insert Pair-discrete (b, a) (b, a) (insert Pair-discrete (a, b) n.partitions),
  ),
)

flushed :
    (a b : EndpointId) (hs ds : List Delivery)
    → IsApart a b hs
    → IsBetween a b ds
    → keep (is_between a b) (hs ++ ds) ≡ ds
flushed a b hs ds h k =
    keep-append (is_between a b) hs ds ∙ ap₂ ◌++◌ (keep_none a b hs h) (keep_all a b ds k)

heal_held :
    (n : Shared) (a b : EndpointId) (ps : List (EndpointId × EndpointId)) (ds : List Delivery)
    → IsApart a b n.held
    → IsBetween a b ds
    → heal (with_held n ps (n.held ++ ds)) a b
      ≡ with_held
          (post_all n ds)
          (remove Pair-discrete (b, a) (remove Pair-discrete (a, b) ps))
          (keep (λ d. not (is_between a b d)) (n.held ++ ds))
unfolding heal
heal_held n a b ps ds h k =
    ap (post_all (with_held n _ _)) (flushed a b n.held ds h k) ∙ post_all-with_held ds n _ _

held_across :
    (n : Shared) (a b : EndpointId) (ds : List Delivery)
    → IsBetween a b ds
    → send_all (partition n a b) ds ≡ with_held n (partition n a b).partitions (n.held ++ ds)
unfolding partition
held_across n a b ds k =
    let (p, q) = partition_partitioned n a b in holds_all ds (partition n a b) a b k p q

-- A partition delays and loses nothing: deliveries between two endpoints, sent while the two are
-- partitioned, reach the same mailboxes in the same order and wake the same receivers when the
-- partition heals as if it had never been.
pub heal-partition :
    (n : Shared) (a b : EndpointId) (ds : List Delivery)
    → IsClear n a b
    → IsApart a b n.held
    → IsBetween a b ds
    → let healed = heal (send_all (partition n a b) ds) a b in
      (healed.mailboxes ≡ (send_all n ds).mailboxes) × (healed.woken ≡ (send_all n ds).woken)
heal-partition n a b ds c h k =
    let e = ap (λ x. heal x a b) (held_across n a b ds k) ∙ heal_held n a b _ ds h k in
    let f = sym (flows_all ds n a b k c) in
    (
      ap (λ (x : Shared). x.mailboxes) e ∙ ap (λ (x : Shared). x.mailboxes) f,
      ap (λ (x : Shared). x.woken) e ∙ ap (λ (x : Shared). x.woken) f,
    )
