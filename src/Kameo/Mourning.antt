-- ===== src/Kameo/Mourning.antt =====
-- crates/kamiroh-adapter-kameo/src/lib.rs: a death that is told to every actor on the roster.
use kamiroh.Common.{[], true, List, ◌≡◌, map, ◌⊎◌}
use kamiroh.Common.Sets.{contains}
use kamiroh.Kameo.Host.{affected}
use kamiroh.Kameo.Runtime.{Entry}
use kamiroh.Domain.Address.{EndpointId, ActorName, ActorName-discrete}

abbrev names_of : {P : Type 0} → List (ActorName × Entry P) → List ActorName
names_of = map λ x. x.0

-- An actor without a live exchange with the endpoint.
abbrev pub IsMourning : {P : Type 0} → EndpointId → Entry P → Type 0
IsMourning e x = affected e x.host.conversations ≡ []

-- An actor that is still to be told, or that mourns.
abbrev IsTold : {P : Type 0} → EndpointId → List ActorName → ActorName → Entry P → Type 0
IsTold e names name x = (contains ActorName-discrete name names ≡ true) ⊎ IsMourning e x
