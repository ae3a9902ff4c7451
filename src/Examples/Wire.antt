-- ===== src/Examples/Wire.antt =====
-- A network that the tests of the Iroh adapter run on: a connection is its number and the key at
-- its other end, and those below a certain number have gone stale.
use kamiroh.Iroh.External.{External}
use kamiroh.Iroh.Laws.{Queues, ChannelLaws, ReadsBack, Authenticates, KeepsLimit}
use kamiroh.Common.{
  [], ◌∷◌, none, some, ok, err, inl, true, zero, suc, List, Text, arith, ℕ, Bool, Option, Result,
  ite, length, codes, cond, ℕ_discrete, ◌++◌, leb, ltb, ◌≡◌, false, refl, inr, ◌⊎◌, Bool-cases, ap,
  if_pos, if_neg, sym, ◌∙◌, subst,
}
use kamiroh.Iroh.Frame.{Frame, single, open_many_frame}
use kamiroh.Ports.{Delivery, Poll, pending, ready}
use kamiroh.Domain.Vocabulary.{
  harness_message, ping, spawn, spawned, stop, stopped, failed, request_message, ack_message,
  turn_message, pong,
}
use kamiroh.Domain.Address.{ActorName}

pub record Wire : Type 0 where
  pub incoming : List (List ℕ)
  pub fresh : ℕ
  pub alive_from : ℕ

pub record Queued : Type 0 where
  pub fresh : ℕ
  pub closed : ℕ → Bool
  pub queue : ℕ → List Delivery

abbrev pub update {ℓ} : {A : Type ℓ} → (ℕ → A) → ℕ → A → ℕ → A
update f i a j = ite (ℕ_discrete i j) a (f j)

-- The bytes of a ping: the length of the first name, and both names.
abbrev pub ping_bytes : Frame → Result (List ℕ) Text
ping_bytes (single from_name to_name (harness_message ping)) =
    ok (length from_name.name ∷ from_name.name ++ to_name.name)
ping_bytes f = err (codes "not a ping")

abbrev pub split : ℕ → List ℕ → List ℕ × List ℕ
split zero xs = ([], xs)
split (suc n) [] = ([], [])
split (suc n) (x ∷ xs) = let (a, b) = split n xs in (x ∷ a, b)

abbrev pub ping_of : List ℕ → Option Frame
ping_of [] = none
ping_of (n ∷ bytes) =
    let (a, b) = split n bytes in
    some (single (record { name = a }) (record { name = b }) (harness_message ping))

abbrev pub push : Queued → ℕ → Delivery → Queued
push k c d = cond (k.closed c) k (record k { queue = update k.queue c (k.queue c ++ d ∷ []) })

abbrev pub pop : Queued → ℕ → Queued × Poll (Option Delivery)
pop k c = elim (k.queue c) [
  | [] ↦ (k, pending)
  | d ∷ ds ↦ (record k { queue = update k.queue c ds }, ready (some d))
]

abbrev pub open_stream : Wire → ℕ × Text → Wire × Result (ℕ × Text) Text
open_stream n c = (n, cond (ltb c.0 n.alive_from) (err (codes "stale")) (ok c))

abbrev pub next_stream : Wire → ℕ × Text → Wire × Option (List ℕ)
next_stream n c = elim n.incoming [
  | [] ↦ (n, none)
  | bytes ∷ rest ↦ (record n { incoming = rest }, some bytes)
]

abbrev pub wire : External
wire = record {
  NodeId = Text;
  display = λ t. t;
  from_str = λ t. some t;
  NodeAddr = Text;
  new_addr = λ t. t;
  addr_id = λ t. t;
  Builder = Option ℕ;
  builder = λ p. none;
  bind_addr = λ b port. ok (some port);
  Endpoint = Wire;
  bind = λ b key protocol. ok (record { incoming = []; fresh = 0; alive_from = 0 });
  endpoint_node_id = λ n. codes "aa";
  Connection = ℕ × Text;
  stable_id = λ c. c.0;
  remote_id = λ c. c.1;
  paths = λ n c. c.1;
  connect = λ n addr protocol. (record n { fresh = suc n.fresh }, ok (n.fresh, addr));
  close_connection = λ n c. n;
  close = λ n. n;
  SendStream = ℕ × Text;
  open_uni = open_stream;
  write_all = λ n stream bytes. (n, ok tt);
  finish = λ n stream. (n, ok tt);
  stopped = λ n stream. n;
  RecvStream = List ℕ;
  accept_uni = next_stream;
  read_to_end = λ n stream limit. (n, cond (leb (length stream) limit) (some stream) none);
  ConnectionError = Bool;
  locally_closed = λ b. b;
  to_stdvec = ping_bytes;
  from_bytes = ping_of;
  Channels = Queued;
  Channel = ℕ;
  no_channels = record { fresh = 0; closed = λ c. true; queue = λ c. [] };
  unbounded_channel = λ k. (
    record {
      fresh = suc k.fresh;
      closed = update k.closed k.fresh false;
      queue = update k.queue k.fresh [];
    },
    k.fresh,
  );
  is_closed = λ k c. k.closed c;
  channel_send = push;
  recv = pop;
  drop_receiver = λ k c. record k { closed = update k.closed c true };
}

split-append : (xs ys : List ℕ) → split (length xs) (xs ++ ys) ≡ (xs, ys)
split-append [] ys = refl
split-append (x ∷ xs) ys = rw (split-append xs ys)

pub update-cases {ℓ} :
    {A : Type ℓ} (f : ℕ → A) (i : ℕ) (a : A) (j : ℕ)
    → (update f i a j ≡ f j) ⊎ ((i ≡ j) × (update f i a j ≡ a))
update-cases f i a j = elim (ℕ_discrete i j) [
  | yes p ↦ inr (p, if_pos (ℕ_discrete i j) p a (f j))
  | no ne ↦ inl (if_neg (ℕ_discrete i j) ne a (f j))
]

pub push-cases :
    (k : Queued) (c j : ℕ) (d : Delivery)
    → ((push k c d).queue j ≡ k.queue j) ⊎ ((push k c d).queue j ≡ k.queue j ++ d ∷ [])
push-cases k c j d = elim (Bool-cases (k.closed c)) [
  | inl p ↦ inl (rw (p, push) refl)
  | inr p ↦ elim (update-cases k.queue c (k.queue c ++ d ∷ []) j) [
    | inl e ↦ inl (rw (p, push) e)
    | inr (q, e) ↦ inr (rw (p, push) (e ∙ ap (λ x. k.queue x ++ d ∷ []) q))
  ]
]

List-cases :
    (ds : List Delivery) → (ds ≡ []) ⊎ ((d : Delivery) × (es : List Delivery) × (ds ≡ d ∷ es))
List-cases [] = inl refl
List-cases (d ∷ ds) = inr (d, ds, refl)

pub pop-cases :
    (k : Queued) (c j : ℕ)
    → ((pop k c).0.queue j ≡ k.queue j) ⊎ ((d : Delivery) × (k.queue j ≡ d ∷ (pop k c).0.queue j))
pop-cases k c j = elim (List-cases (k.queue c)) [
  | inl p ↦ inl (rw (p, pop) refl)
  | inr (d, ds, p) ↦ elim (update-cases k.queue c ds j) [
    | inl e ↦ inl (rw (p, pop) e)
    | inr (q, e) ↦ inr (d, rw (p, pop) (ap k.queue (sym q) ∙ p ∙ ap (λ x. d ∷ x) (sym e)))
  ]
]

-- What the theorems ask of the other packages holds of this network.
pub wire-Authenticates : Authenticates wire
wire-Authenticates n addr protocol c p = ground (arith, p)

pub wire-KeepsLimit : KeepsLimit wire
wire-KeepsLimit n stream limit bytes p = ground (arith, p)

ok-ping :
    (a b : ActorName) (bytes : List ℕ)
    → ping_bytes (single a b (harness_message ping)) ≡ ok bytes
    → ping_of bytes ≡ some (single a b (harness_message ping))
ok-ping a b bytes p =
    let same_bytes : length a.name ∷ a.name ++ b.name ≡ bytes = ground (arith, p) in
    subst (λ x. ping_of x ≡ some (single a b (harness_message ping))) same_bytes
      (rw (split-append a.name b.name) refl)

pub wire-ReadsBack : ReadsBack wire
wire-ReadsBack (single a b (harness_message ping)) bytes p = ok-ping a b bytes p
wire-ReadsBack (single a b (harness_message pong)) bytes p = absurd (ground (arith, p))
wire-ReadsBack (single a b (harness_message (spawn n))) bytes p = absurd (ground (arith, p))
wire-ReadsBack (single a b (harness_message (spawned n))) bytes p = absurd (ground (arith, p))
wire-ReadsBack (single a b (harness_message (stop n))) bytes p = absurd (ground (arith, p))
wire-ReadsBack (single a b (harness_message (stopped n))) bytes p = absurd (ground (arith, p))
wire-ReadsBack (single a b (harness_message (failed n))) bytes p = absurd (ground (arith, p))
wire-ReadsBack (single a b (request_message x)) bytes p = absurd (ground (arith, p))
wire-ReadsBack (single a b (ack_message x)) bytes p = absurd (ground (arith, p))
wire-ReadsBack (single a b (turn_message x)) bytes p = absurd (ground (arith, p))
wire-ReadsBack (open_many_frame a names q) bytes p = absurd (ground (arith, p))

abbrev pub wire_queues : Queues wire
wire_queues = record {
  waiting = λ k c. k.queue c;
  waiting_none = λ c. refl;
  new_waiting =
      λ k c. elim (update-cases k.queue k.fresh [] c) [ inl e ↦ inl e | inr (p, e) ↦ inr e ];
  sent = push-cases;
  received = pop-cases;
  dropped_waiting = λ k c j. inl refl;
}

pub wire_laws : ChannelLaws wire wire_queues
wire_laws = record {
  new_open = λ k. ground arith;
  sent_open = λ k c d p. ground (arith, p);
  closed_sent = λ k c j d. ground arith;
  dropped = λ k c. ground arith;
}
