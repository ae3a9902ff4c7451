-- ===== src/Kameo/Rounds.antt =====
-- crates/kamiroh-adapter-kameo/src/lib.rs: how far the epoch of a conversation has moved.
use kamiroh.Kameo.Host.{
  PeerWaits, next_epoch, settle_all, failed_waits, no_waits, affected, settle_ack, Report,
}
use kamiroh.App.Parties.{entry_or, put}
use kamiroh.Common.Assoc.{get, insert, modify, get-insert, get-modify, get-insert_self}
use mathlib.Core.Option.{map as map_option}
use kamiroh.Common.{
  [], ◌∷◌, none, some, ℕ, Option, List, ◌≡◌, refl, ite, arith, ◌+◌, ◌≤◌, ◌<◌, ◌⊎◌, inl, inr, false,
  ◌^◌, Option-cases, subst, ap, sym, ◌∙◌,
}
use kamiroh.Domain.Address.{Address, Address-discrete, EndpointId}
use kamiroh.Domain.Vocabulary.{RequestId}
use kamiroh.Kameo.Timers.{still_pending}

-- The epoch `x` is at least one and at most `n` rounds past `e`, wrapped at most once.
abbrev pub Moved : ℕ → ℕ → ℕ → Type 0
Moved e n x = (x < 2 ^ 64) × (((e < x) × (x ≤ e + n)) ⊎ (x + 2 ^ 64 ≤ e + n))

-- No wait of the epoch `e` is left.
abbrev pub Past : ℕ → ℕ → PeerWaits → Type 0
Past e n ws = ((ws.turn ≡ false) × (ws.ack ≡ none) × (ws.epoch ≡ e)) ⊎ Moved e n ws.epoch

abbrev pub PastAt : ℕ → ℕ → Option PeerWaits → Type 0
PastAt e n none = ⊥
PastAt e n (some ws) = Past e n ws

-- Every peer has one conversation.
abbrev pub OneEach : List (Address × PeerWaits) → Type 0
OneEach [] = Unit
OneEach ((p, ws) ∷ m) = (get Address-discrete p m ≡ none) × OneEach m

abbrev pub Tracked : Address → ℕ → ℕ → List (Address × PeerWaits) → Type 0
Tracked peer e n m = OneEach m × PastAt e n (get Address-discrete peer m)

pub Moved-differs : (e n x : ℕ) → e < 2 ^ 64 → n < 2 ^ 64 → Moved e n x → x ≡ e → ⊥
Moved-differs e n x p q h k = ground arith

Moved-next : (e n x : ℕ) → Moved e n x → Moved e (n + 1) (next_epoch x)
unfolding next_epoch
Moved-next e n x h = ground arith

Moved-first : (e n : ℕ) → e < 2 ^ 64 → Moved e (n + 1) (next_epoch e)
unfolding next_epoch
Moved-first e n p = ground arith

-- How often the peer stands in a list of failures.
abbrev pub hit : Address → Address → ℕ
hit peer p = ite (Address-discrete p peer) 1 0

abbrev pub hits : Address → List Address → ℕ
hits peer [] = 0
hits peer (p ∷ ps) = hit peer p + hits peer ps

Past-upto : (e n k : ℕ) (ws : PeerWaits) → n ≤ k → Past e n ws → Past e k ws
Past-upto e n k ws p h = ground arith

pub PastAt-upto : (e n k : ℕ) (o : Option PeerWaits) → n ≤ k → PastAt e n o → PastAt e k o
PastAt-upto e n k none p h = absurd h
PastAt-upto e n k (some ws) p h = Past-upto e n k ws p h

-- Every round moves the epoch on.
pub Past-next :
    (e n : ℕ) (ws : PeerWaits) → e < 2 ^ 64 → Past e n ws → Moved e (n + 1) (next_epoch ws.epoch)
Past-next e n ws p h = ground (arith, Moved-next e n ws.epoch, Moved-first e n p)

failed-Past :
    (e n : ℕ) (ws : PeerWaits) → e < 2 ^ 64 → Past e n ws → Past e (n + 1) (failed_waits ws)
unfolding failed_waits settle_all
failed-Past e n ws p h = inr (Past-next e n ws p h)

OneEach-insert :
    (p : Address) (ws : PeerWaits) (m : List (Address × PeerWaits))
    → OneEach m
    → OneEach (put p ws m)
unfolding insert get
OneEach-insert p ws [] h = (refl, tt)
OneEach-insert p ws ((q, v) ∷ m) h =
    ground (arith, OneEach-insert p ws m h.1, get-insert Address-discrete p q ws m)

OneEach-modify :
    (p : Address) (f : PeerWaits → PeerWaits) (m : List (Address × PeerWaits))
    → OneEach m
    → OneEach (modify Address-discrete p f m)
unfolding modify
OneEach-modify p f [] h = tt
OneEach-modify p f ((q, v) ∷ m) h =
    (rw (get-modify Address-discrete p q f m) (ground arith), OneEach-modify p f m h.1)

pub Tracked-put :
    (peer p : Address) (e n : ℕ) (ws : PeerWaits) (m : List (Address × PeerWaits))
    → (p ≡ peer → Past e n ws)
    → Tracked peer e n m
    → Tracked peer e n (put p ws m)
Tracked-put peer p e n ws m q h =
    (OneEach-insert p ws m h.0, rw (get-insert Address-discrete p peer ws m) (ground arith))

pub Tracked-waits :
    (peer p : Address) (e n : ℕ) (m : List (Address × PeerWaits))
    → Tracked peer e n m
    → p ≡ peer
    → Past e n (entry_or p no_waits m)
Tracked-waits peer p e n m h q = elim (Option-cases (get Address-discrete p m)) [
  | inl k ↦ absurd (subst (PastAt e n) (ap (λ x. get Address-discrete x m) (sym q) ∙ k) h.1)
  | inr (ws, k) ↦
      rw (k, entry_or) (subst (PastAt e n) (ap (λ x. get Address-discrete x m) (sym q) ∙ k) h.1)
]

failed-PastAt :
    (peer p : Address) (e n : ℕ) (o : Option PeerWaits)
    → e < 2 ^ 64
    → PastAt e n o
    → PastAt e (n + hit peer p) (ite (Address-discrete p peer) (map_option failed_waits o) o)
failed-PastAt peer p e n none q h = absurd h
failed-PastAt peer p e n (some ws) q h = ground (arith, failed-Past e n ws q h, h)

pub Tracked-fail :
    (peer p : Address) (e n : ℕ) (m : List (Address × PeerWaits))
    → e < 2 ^ 64
    → Tracked peer e n m
    → Tracked peer e (n + hit peer p) (modify Address-discrete p failed_waits m)
Tracked-fail peer p e n m q h = (
  OneEach-modify p failed_waits m h.0,
  rw (get-modify Address-discrete p peer failed_waits m)
      (failed-PastAt peer p e n (get Address-discrete peer m) q h.1),
)

affected_absent :
    (peer : Address) (e : EndpointId) (m : List (Address × PeerWaits))
    → get Address-discrete peer m ≡ none
    → hits peer (affected e m) ≡ 0
unfolding affected get
affected_absent peer e [] h = refl
affected_absent peer e ((q, v) ∷ m) h = ground (arith, h, affected_absent peer e m)

pub hits-affected :
    (peer : Address) (e : EndpointId) (m : List (Address × PeerWaits))
    → OneEach m
    → hits peer (affected e m) ≤ 1
unfolding affected
hits-affected peer e [] h = ground arith
hits-affected peer e ((q, v) ∷ m) h =
    ground (arith, hits-affected peer e m h.1, affected_absent peer e m)

settled-PastAt :
    (e n : ℕ) (id : RequestId) (o : Option PeerWaits)
    → PastAt e n o
    → PastAt e n (map_option (settle_ack id) o)
unfolding settle_ack
settled-PastAt e n id none h = absurd h
settled-PastAt e n id (some ws) h = ground arith

pub Tracked-settle :
    (peer p : Address) (e n : ℕ) (id : RequestId) (m : List (Address × PeerWaits))
    → Tracked peer e n m
    → Tracked peer e n (modify Address-discrete p (settle_ack id) m)
Tracked-settle peer p e n id m h =
    let o = get Address-discrete peer m in
    let settled = settled-PastAt e n id o h.1 in
    (
      OneEach-modify p (settle_ack id) m h.0,
      rw (get-modify Address-discrete p peer (settle_ack id) m) (ground arith),
    )

pub Tracked-new :
    (peer : Address) (e n : ℕ) (ws : PeerWaits) (m : List (Address × PeerWaits))
    → Past e n ws
    → OneEach m
    → Tracked peer e n (put peer ws m)
Tracked-new peer e n ws m h one =
    (OneEach-insert peer ws m one, rw (get-insert_self Address-discrete peer ws m) h)

pub Past-not_pending :
    (e n : ℕ) (x : Report) (ws : PeerWaits)
    → e < 2 ^ 64
    → n < 2 ^ 64
    → x.epoch ≡ e
    → Past e n ws
    → still_pending x ws ≡ false
unfolding still_pending
Past-not_pending e n x ws p q r h = ground (arith, Moved-differs e n ws.epoch p q)
