-- ===== src/Domain/Secret.antt =====
-- crates/kamiroh-domain/src/secret.rs: secret key material.
use kamiroh.Common.{Text, codes, List, ℕ}

pub record Secret : Type 0 where
  pub bytes : List ℕ

unfoldable pub new : List ℕ → Secret
new bytes = record { bytes = bytes }

unfoldable pub expose : Secret → List ℕ
expose s = s.bytes

-- `impl Debug for Secret`.
unfoldable pub debug : Secret → Text
debug s = codes "Secret(<redacted>)"
