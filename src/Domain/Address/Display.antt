-- ===== src/Domain/Address/Display.antt =====
-- crates/kamiroh-domain/src/actor.rs: the printed form of an address.
use kamiroh.Domain.Hex.{new as new_hex}
use kamiroh.Common.{
  Text, All, all, ℕ, ◌++◌, ◌≡◌, ◌≢◌, ok, true, ◌∷◌, arith, [], subst, ap, refl, tail, sym,
}
use kamiroh.Domain.Hex.Normal.{is_lower_hexdigit, new-digits}
use kamiroh.Domain.Address.{display, Address}

abbrev NoAt : Text → Type 0
NoAt s = All (λ c. c ≢ b'@') s

no_at_of_lower : (c : ℕ) → is_lower_hexdigit c ≡ true → c ≢ b'@'
unfolding is_lower_hexdigit
no_at_of_lower c h = ground arith

NoAt-lower : (s : Text) → all is_lower_hexdigit s ≡ true → NoAt s
NoAt-lower [] h = tt
NoAt-lower (c ∷ s) h = ground (arith, no_at_of_lower c, NoAt-lower s)

NoAt-append : (s t : Text) → NoAt (s ++ b'@' ∷ t) → ⊥
NoAt-append [] t h = h.0 refl
NoAt-append (c ∷ s) t h = NoAt-append s t h.1

split_at : (n m d e : Text) → NoAt d → NoAt e → n ++ b'@' ∷ d ≡ m ++ b'@' ∷ e → (n ≡ m) × (d ≡ e)
split_at [] [] d e hd he p = ground arith
split_at [] (c ∷ m) d e hd he p = absurd (NoAt-append m e (subst NoAt (ap tail p) hd))
split_at (c ∷ n) [] d e hd he p = absurd (NoAt-append n d (subst NoAt (ap tail (sym p)) he))
split_at (c ∷ n) (b ∷ m) d e hd he p = ground (arith, split_at n m d e hd he (ap tail p))

-- Two addresses whose endpoints were validated by `Hex::new` print alike only if they are equal,
-- although a name may hold any character, at signs too.
pub display-injective :
    (a b : Address) (s t : Text)
    → new_hex s ≡ ok a.endpoint.hex
    → new_hex t ≡ ok b.endpoint.hex
    → display a ≡ display b
    → a ≡ b
unfolding display
display-injective a b s t ha hb p = ground (
  arith,
  split_at a.name.name b.name.name a.endpoint.hex.digits b.endpoint.hex.digits
      (NoAt-lower _ (new-digits s ha).1) (NoAt-lower _ (new-digits t hb).1) p,
)
