-- ===== src/Domain/Allowlist.antt =====
-- crates/kamiroh-domain/src/allowlist.rs: the endpoints an actor hears.
pub mod Policy
use kamiroh.Common.{Bool, List, [], is_empty, ◌∷◌}
use kamiroh.Common.Sets.{contains, insert, remove}
use kamiroh.Domain.Address.{EndpointId, EndpointId-discrete}

pub record Allowlist : Type 0 where
  pub endpoints : List EndpointId

unfoldable pub empty : Allowlist
empty = record { endpoints = [] }

unfoldable pub admit : Allowlist → EndpointId → Allowlist
admit l e = record { endpoints = insert EndpointId-discrete e l.endpoints }

unfoldable pub revoke : Allowlist → EndpointId → Allowlist
revoke l e = record { endpoints = remove EndpointId-discrete e l.endpoints }

unfoldable pub allows : Allowlist → EndpointId → Bool
allows l e = contains EndpointId-discrete e l.endpoints

-- `Allowlist::is_empty`.
unfoldable pub denies_all : Allowlist → Bool
denies_all l = is_empty l.endpoints
