-- ===== src/Common/Sets.antt =====
-- `BTreeSet<A>` and `HashSet<A>` as lists without repeats.
use mathlib.Core.Path.{◌≡◌}
use mathlib.Core.Logic.{ite, if_pos, if_neg}
use mathlib.Core.Bool.{Bool, true, false, cond}
use mathlib.Core.List.{List, [], ◌∷◌}
use native.Mathlib.Omega.{arith}

module _ {ℓ} {A : Type ℓ} (d : Discrete A) where
  unfoldable pub contains : A → List A → Bool
  contains a [] = false
  contains a (x ∷ xs) = ite (d x a) true (contains a xs)

  unfoldable pub insert : A → List A → List A
  unfolding contains
  insert a xs = cond (contains a xs) xs (a ∷ xs)

  unfoldable pub remove : A → List A → List A
  remove a [] = []
  remove a (x ∷ xs) = ite (d x a) (remove a xs) (x ∷ remove a xs)

  pub contains-insert :
      (a b : A) (xs : List A) → contains b (insert a xs) ≡ ite (d a b) true (contains b xs)
  unfolding contains insert
  contains-insert a b xs = ground arith

  pub contains-remove :
      (a b : A) (xs : List A) → contains b (remove a xs) ≡ ite (d a b) false (contains b xs)
  unfolding contains remove
  contains-remove a b [] = ground arith
  contains-remove a b (x ∷ xs) = elim (d x a) [
    | yes p ↦ rw (if_pos (d x a) p) (ground (arith, contains-remove a b xs))
    | no p ↦ rw (if_neg (d x a) p) (ground (arith, contains-remove a b xs))
  ]
