-- ===== src/Domain/Hex.antt =====
-- crates/kamiroh-domain/src/hex.rs: validated, normalised hexadecimal strings.
pub mod Normal
use kamiroh.Common.{
  ℕ, ◌+◌, Text, Text-discrete, Result, ok, err, Bool, ◌||◌, ◌&&◌, not, cond, leb, all, is_empty,
  map,
}

pub record Hex : Type 0 where
  pub digits : Text

unfoldable pub Hex-discrete : Discrete Hex
Hex-discrete = hlevel Text-discrete

pub data HexError : Type 0 where
  empty non_hex_character : HexError

-- `char::is_ascii_hexdigit`.
unfoldable pub is_ascii_hexdigit : ℕ → Bool
is_ascii_hexdigit c =
    (leb b'0' c && leb c b'9') || (leb b'a' c && leb c b'f') || (leb b'A' c && leb c b'F')

-- `char::to_ascii_lowercase`.
unfoldable pub to_ascii_lowercase : ℕ → ℕ
to_ascii_lowercase c = cond (leb b'A' c && leb c b'Z') (c + 32) c

unfoldable pub new : Text → Result Hex HexError
unfolding is_ascii_hexdigit to_ascii_lowercase
new s = cond (is_empty s) (err empty) (
    cond (not (all is_ascii_hexdigit s)) (err non_hex_character)
      (ok (record { digits = map to_ascii_lowercase s })))
