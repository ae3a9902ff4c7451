-- ===== src/Domain.antt =====
-- kamiroh-domain: values and rules with no input or output.
pub mod Hex
pub mod Address
pub mod Allowlist
pub mod Deadline
pub mod Vocabulary
pub mod Secret
pub mod Protocol
pub mod TurnState
