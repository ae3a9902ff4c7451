-- ===== src/Domain/Hex/Normal.antt =====
-- crates/kamiroh-domain/src/hex.rs: what `Hex::new` accepts and how it normalises.
use kamiroh.Common.{
  ℕ, ◌≡◌, refl, Text, ok, Bool, true, false, ◌||◌, ◌&&◌, leb, all, is_empty, map, [], ◌∷◌, arith,
}
use kamiroh.Domain.Hex.{Hex, is_ascii_hexdigit, to_ascii_lowercase, new}

-- `0-9` or `a-f`.
unfoldable pub is_lower_hexdigit : ℕ → Bool
is_lower_hexdigit c = (leb b'0' c && leb c b'9') || (leb b'a' c && leb c b'f')

lower_of_hexdigit :
    (c : ℕ) → is_ascii_hexdigit c ≡ true → is_lower_hexdigit (to_ascii_lowercase c) ≡ true
unfolding is_ascii_hexdigit to_ascii_lowercase is_lower_hexdigit
lower_of_hexdigit c h = ground arith

hexdigit_lower : (c : ℕ) → is_ascii_hexdigit (to_ascii_lowercase c) ≡ is_ascii_hexdigit c
unfolding is_ascii_hexdigit to_ascii_lowercase
hexdigit_lower c = ground arith

lower_lower : (c : ℕ) → to_ascii_lowercase (to_ascii_lowercase c) ≡ to_ascii_lowercase c
unfolding to_ascii_lowercase
lower_lower c = ground arith

lower-all :
    (s : Text)
    → all is_ascii_hexdigit s ≡ true
    → all is_lower_hexdigit (map to_ascii_lowercase s) ≡ true
lower-all [] h = refl
lower-all (c ∷ s) h = ground (arith, lower-all s, lower_of_hexdigit c)

all-lower : (s : Text) → all is_ascii_hexdigit (map to_ascii_lowercase s) ≡ all is_ascii_hexdigit s
all-lower [] = refl
all-lower (c ∷ s) = rw (hexdigit_lower c, all-lower s)

map-lower-lower :
    (s : Text) → map to_ascii_lowercase (map to_ascii_lowercase s) ≡ map to_ascii_lowercase s
map-lower-lower [] = refl
map-lower-lower (c ∷ s) = rw (lower_lower c, map-lower-lower s)

is_empty-lower : (s : Text) → is_empty (map to_ascii_lowercase s) ≡ is_empty s
is_empty-lower [] = refl
is_empty-lower (c ∷ s) = refl

-- `Hex::new` does not see the case of its argument: the lowercased text gives the same value, or
-- the same error.
pub new-lower : (s : Text) → new (map to_ascii_lowercase s) ≡ new s
unfolding new
new-lower s = rw (is_empty-lower s, all-lower s, map-lower-lower s)

-- A value that `Hex::new` returns is not empty and consists of lowercase hexadecimal digits
-- only, and `Hex::new` returns it again for its own digits.
pub new-digits :
    (s : Text) {h : Hex}
    → new s ≡ ok h
    → (is_empty h.digits ≡ false) × (all is_lower_hexdigit h.digits ≡ true) × (new h.digits ≡ ok h)
unfolding new
new-digits s e = ground (arith, lower-all s, is_empty-lower s, all-lower s, map-lower-lower s)
