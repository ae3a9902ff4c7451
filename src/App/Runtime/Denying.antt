-- ===== src/App/Runtime/Denying.antt =====
-- crates/kamiroh-app/src/runtime.rs: a delivery that the allowlist denies.
use kamiroh.App.Runtime.{Ports}
use kamiroh.Common.Sets.{remove as remove_endpoint}
use kamiroh.Domain.Allowlist.{Allowlist}
