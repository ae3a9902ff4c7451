-- ===== src/App/Admission.antt =====
-- crates/kamiroh-app/src/admission.rs: the allowlist check of every delivery.
use kamiroh.Domain.Allowlist.{Allowlist, allows}
use kamiroh.Ports.{Delivery}
use kamiroh.Common.{cond}

pub data Admission : Type 0 where
  deliver deny : Admission

unfoldable pub admit : Allowlist → Delivery → Admission
admit l d = cond (allows l d.from.endpoint) deliver deny
