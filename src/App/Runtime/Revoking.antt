-- ===== src/App/Runtime/Revoking.antt =====
-- crates/kamiroh-app/src/runtime.rs: what `revoke` and `sweep_dead` do to an actor.
use kamiroh.App.Runtime.Manage.{affected, revoke}
use kamiroh.App.Runtime.Failing.{FailedTogether}
use mathlib.Core.Path.{ap, ◌∙◌}
use kamiroh.App.Runtime.{LocalActor, LocalRuntime, Ports, address_of}
use kamiroh.App.Runtime.Failing.{failures, failed_all}
use kamiroh.App.Runtime.Affected.{
  failed_if, get-fail_affected, conversations-failed_all, allowlist-failed_all,
}
use kamiroh.App.Runtime.Invariant.{ActorArmed}
use kamiroh.Domain.Allowlist.{revoke as revoke_endpoint, Allowlist}
use kamiroh.Common.Assoc.{get}
use kamiroh.Common.{some, Bool, ◌≡◌, ◌++◌, List, Option, ite}
use kamiroh.Domain.Address.{ActorName, EndpointId, ActorName-discrete, Address, Address-discrete}
use kamiroh.Domain.Deadline.{FailureCause}
use mathlib.Core.Option

module _ {S P : Type 0} (ports : Ports S P) where
  -- What failing the selected exchanges of one actor leaves: no message is sent, the observer is
  -- told of each, and exactly the live conversations selected are failed.
  pub record ExchangesFailed (name : ActorName) (hit : EndpointId → Bool) (cause : FailureCause)
      (l : Allowlist) (a : LocalActor P) (r r' : LocalRuntime S P) : Type 0 where
    pub world_kept : r'.world ≡ r.world
    pub told :
        r'.observer
        ≡ Option.map
            (λ log. log ++ failures (address_of r name) (affected hit a.conversations) cause)
            r.observer
    pub after : LocalActor P
    pub actors_after :
        (j : ActorName)
        → get ActorName-discrete j r'.actors
          ≡ ite (ActorName-discrete name j) (some after) (get ActorName-discrete j r.actors)
    pub allowlist_after : after.allowlist ≡ l
    pub conversations_after :
        (peer : Address)
        → get Address-discrete peer after.conversations
          ≡ Option.map (failed_if hit peer) (get Address-discrete peer a.conversations)

  pub after_failed_exchanges :
      (name : ActorName) (hit : EndpointId → Bool) (cause : FailureCause) (l : Allowlist)
      (a : LocalActor P) (r r' : LocalRuntime S P) (actors : List (ActorName × LocalActor P))
      → ActorArmed a
      → ((j : ActorName) (x : Option (LocalActor P))
          → ite (ActorName-discrete name j) x (get ActorName-discrete j actors)
            ≡ ite (ActorName-discrete name j) x (get ActorName-discrete j r.actors))
      → FailedTogether ports name
          (affected hit a.conversations)
          cause
          (record a { allowlist = l })
          (record r { actors = actors })
          r'
      → ExchangesFailed name hit cause l a r r'
  after_failed_exchanges name hit cause l a r r' actors i others f =
      let a1 : LocalActor P = record a { allowlist = l } in
      let peers = affected hit a.conversations in
      record {
        world_kept = f.world_kept;
        told = f.told;
        after = failed_all ports a1 peers cause;
        actors_after = λ j. f.actors_after j ∙ others j _;
        allowlist_after = allowlist-failed_all ports a1 peers cause;
        conversations_after = λ peer.
            ap (get Address-discrete peer) (conversations-failed_all ports a1 peers cause)
            ∙ get-fail_affected hit peer a.conversations i;
      }
