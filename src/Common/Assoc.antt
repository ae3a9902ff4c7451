-- ===== src/Common/Assoc.antt =====
-- `HashMap<K, V>` as a list of pairs. The order of the list stands for the order
-- in which a map is iterated.
use mathlib.Core.Path.{◌≡◌, refl, sym, ◌∙◌, subst, subst₂}
use mathlib.Core.Logic.{ite, if_pos, if_neg}
use mathlib.Core.Bool.{Bool, true, false}
use mathlib.Core.Option.{Option, none, some, some-injective, none-ne-some}
use mathlib.Core.Option
use mathlib.Core.List.{List, [], ◌∷◌}
use native.Mathlib.Omega.{arith}

module _ {ℓ} {K V : Type ℓ} (d : Discrete K) where
  unfoldable pub get : K → List (K × V) → Option V
  get k [] = none
  get k ((j, v) ∷ m) = ite (d j k) (some v) (get k m)

  unfoldable pub contains_key : K → List (K × V) → Bool
  unfolding get
  contains_key k m = elim (get k m) [ none ↦ false | some v ↦ true ]

  -- `insert`: the value of a key that is there is replaced.
  unfoldable pub insert : K → V → List (K × V) → List (K × V)
  insert k v [] = (k, v) ∷ []
  insert k v ((j, w) ∷ m) = ite (d j k) ((j, v) ∷ m) ((j, w) ∷ insert k v m)

  unfoldable pub remove : K → List (K × V) → List (K × V)
  remove k [] = []
  remove k ((j, w) ∷ m) = ite (d j k) (remove k m) ((j, w) ∷ remove k m)

  -- A write through `get_mut`: nothing happens at a missing key, and a key stands once.
  unfoldable pub modify : K → (V → V) → List (K × V) → List (K × V)
  modify k f [] = []
  modify k f ((j, w) ∷ m) = (j, ite (d j k) (f w) w) ∷ modify k f m

  pub get-insert :
      (k j : K) (v : V) (m : List (K × V)) → get j (insert k v m) ≡ ite (d k j) (some v) (get j m)
  unfolding get insert
  get-insert k j v [] = refl
  get-insert k j v ((i, w) ∷ m) = ground (arith, get-insert k j v m)

  pub get-insert_self : (k : K) (v : V) (m : List (K × V)) → get k (insert k v m) ≡ some v
  get-insert_self k v m = get-insert k k v m ∙ if_pos (d k k) refl (some v) (get k m)

  -- The later of two writes at a key is the one that counts.
  pub insert-insert :
      (k : K) (u v : V) (m : List (K × V)) → insert k v (insert k u m) ≡ insert k v m
  unfolding insert
  insert-insert k u v [] = ground arith
  insert-insert k u v ((j, w) ∷ m) = ground (arith, insert-insert k u v m)

  pub get-remove : (k j : K) (m : List (K × V)) → get j (remove k m) ≡ ite (d k j) none (get j m)
  unfolding get remove
  get-remove k j [] = ground arith
  get-remove k j ((i, w) ∷ m) = ground (arith, get-remove k j m)

  pub get-modify :
      (k j : K) (f : V → V) (m : List (K × V))
      → get j (modify k f m) ≡ ite (d k j) (Option.map f (get j m)) (get j m)
  unfolding get modify
  get-modify k j f [] = ground arith
  get-modify k j f ((i, w) ∷ m) = ground (arith, get-modify k j f m)

-- A predicate that holds of every entry.
module _ {ℓ κ} {K V : Type ℓ} where
  abbrev pub AllEntries : (K → V → Type κ) → List (K × V) → Type κ
  AllEntries P [] = Unit
  AllEntries P ((k, v) ∷ m) = P k v × AllEntries P m

  module _ (d : Discrete K) where
    pub AllEntries-get :
        (P : K → V → Type κ) (k : K) (m : List (K × V)) {v : V}
        → AllEntries P m
        → get d k m ≡ some v
        → P k v
    unfolding get
    AllEntries-get P k [] {v} h e = absurd (none-ne-some v e)
    AllEntries-get P k ((j, w) ∷ m) {v} h e = elim (d j k) [
      | yes p ↦
          subst₂ P p (some-injective w v (rw (if_pos (d j k) p (some w) (get d k m)) at e)) h.0
      | no p ↦ AllEntries-get P k m h.1 (rw (if_neg (d j k) p (some w) (get d k m)) at e)
    ]

    pub AllEntries-insert :
        (P : K → V → Type κ) (k : K) (v : V) (m : List (K × V))
        → P k v
        → AllEntries P m
        → AllEntries P (insert d k v m)
    unfolding insert
    AllEntries-insert P k v [] p h = (p, tt)
    AllEntries-insert P k v ((j, w) ∷ m) p h = elim (d j k) [
      | yes e ↦ rw (if_pos (d j k) e) (subst (λ x. P x v) (sym e) p, h.1)
      | no e ↦ rw (if_neg (d j k) e) (h.0, AllEntries-insert P k v m p h.1)
    ]

    pub AllEntries-modify :
        (P Q : K → V → Type κ) (k : K) (f : V → V) (m : List (K × V))
        → ((j : K) (w : V) → P j w → Q j (ite (d j k) (f w) w))
        → AllEntries P m
        → AllEntries Q (modify d k f m)
    unfolding modify
    AllEntries-modify P Q k f [] step h = tt
    AllEntries-modify P Q k f ((j, w) ∷ m) step h =
        (step j w h.0, AllEntries-modify P Q k f m step h.1)

    pub AllEntries-remove :
        (P : K → V → Type κ) (k : K) (m : List (K × V))
        → AllEntries P m
        → AllEntries P (remove d k m)
    unfolding remove
    AllEntries-remove P k [] h = tt
    AllEntries-remove P k ((j, w) ∷ m) h = elim (d j k) [
      | yes e ↦ rw (if_pos (d j k) e) (AllEntries-remove P k m h.1)
      | no e ↦ rw (if_neg (d j k) e) (h.0, AllEntries-remove P k m h.1)
    ]

-- A map of which only a part of each value is kept.
module _ {ℓ} {K V W : Type ℓ} (d : Discrete K) (f : V → W) where
  abbrev pub map_values : List (K × V) → List (K × W)
  map_values [] = []
  map_values ((k, v) ∷ m) = (k, f v) ∷ map_values m

  pub get-map_values :
      (k : K) (m : List (K × V)) → get d k (map_values m) ≡ Option.map f (get d k m)
  unfolding get
  get-map_values k [] = ground arith
  get-map_values k ((j, w) ∷ m) = ground (arith, get-map_values k m)

  pub map_values-insert :
      (k : K) (v : V) (m : List (K × V))
      → map_values (insert d k v m) ≡ insert d k (f v) (map_values m)
  unfolding insert
  map_values-insert k v [] = refl
  map_values-insert k v ((j, w) ∷ m) = ground (arith, map_values-insert k v m)

  pub map_values-modify :
      (k : K) (g : V → V) (h : W → W) (m : List (K × V))
      → ((v : V) → f (g v) ≡ h (f v))
      → map_values (modify d k g m) ≡ modify d k h (map_values m)
  unfolding modify
  map_values-modify k g h [] p = refl
  map_values-modify k g h ((j, w) ∷ m) p = ground (arith, p w, map_values-modify k g h m p)
