-- ===== src/Domain/Address.antt =====
-- crates/kamiroh-domain/src/endpoint.rs and actor.rs: who a message is from, and for whom.
pub mod Display
use kamiroh.Common.{Text, Text-discrete, Result, ok, err, ◌++◌, ◌∷◌, cond, is_empty}
use kamiroh.Domain.Hex.{Hex, Hex-discrete}

pub record EndpointId : Type 0 where
  pub hex : Hex

unfoldable pub EndpointId-discrete : Discrete EndpointId
EndpointId-discrete = hlevel Hex-discrete

pub record ActorName : Type 0 where
  pub name : Text

unfoldable pub ActorName-discrete : Discrete ActorName
ActorName-discrete = hlevel Text-discrete

pub data ActorNameError : Type 0 where
  empty : ActorNameError

-- `ActorName::new`.
unfoldable pub new_name : Text → Result ActorName ActorNameError
new_name s = cond (is_empty s) (err empty) (ok (record { name = s }))

pub record Address : Type 0 where
  pub endpoint : EndpointId
  pub name : ActorName

unfoldable pub Address-discrete : Discrete Address
Address-discrete = hlevel (EndpointId-discrete, ActorName-discrete)

-- `impl Display for Address`: the name, an at sign, the endpoint's hex digits.
unfoldable pub display : Address → Text
display a = a.name.name ++ b'@' ∷ a.endpoint.hex.digits
