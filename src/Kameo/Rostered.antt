-- ===== src/Kameo/Rostered.antt =====
-- crates/kamiroh-adapter-kameo/src/lib.rs: deliveries that the roster or an allowlist keeps out,
-- deaths that are fanned out, and actors that come and go.
use kamiroh.Kameo.Runtime.{KameoRuntime, Entry, emit_here}
use kamiroh.Kameo.Deliver.{deliver_to, dispatch}
use kamiroh.App.Inbound.Gate.{process_denied_iff}
use kamiroh.Common.{ap, some, false, ◌≡◌}
use kamiroh.Common.Assoc.{get}
use kamiroh.Ports.{Transport, Registry, Party, Delivery, delivery_denied}
use kamiroh.Domain.Address.{ActorName, ActorName-discrete}
use kamiroh.Domain.Allowlist.{allows}

module _ {S P : Type 0} (net : Transport S) (registry : Registry S) (own : Party P) where
  -- A delivery from an endpoint that the actor's allowlist does not allow, whatever its message,
  -- sends nothing and changes no actor: the observer is told of it.
  pub deliver_to_denied :
      (name : ActorName) (d : Delivery) (r : KameoRuntime S P) (x : Entry P)
      → get ActorName-discrete name r.roster ≡ some x
      → allows x.host.allowlist d.from.endpoint ≡ false
      → deliver_to net registry own name d r ≡ emit_here (delivery_denied d.from x.host.address) r
  unfolding deliver_to dispatch
  deliver_to_denied name d r x there h =
      rw (there, deliver_to)
        (ap (λ y. dispatch net registry own name x d.from y r)
          ((process_denied_iff x.host.allowlist d).1 h))
