-- ===== src/App/Runtime/Sweeping.antt =====
-- crates/kamiroh-app/src/runtime.rs: a step that finds a dead endpoint with live exchanges.
use kamiroh.App.Runtime.{LocalRuntime, Ports}
use kamiroh.Common.Sets.{contains}
use kamiroh.Common.{same, Bool, ◌&&◌}
use kamiroh.Domain.Address.{Address, EndpointId, EndpointId-discrete}

module _ {S P : Type 0} (ports : Ports S P) where
  -- The endpoints marked dead that are the endpoint of a given peer.
  abbrev pub dead_at : LocalRuntime S P → Address → EndpointId → Bool
  dead_at r first x =
      contains EndpointId-discrete x r.dead && same EndpointId-discrete x first.endpoint
