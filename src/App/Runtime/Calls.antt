-- ===== src/App/Runtime/Calls.antt =====
-- crates/kamiroh-app/src/runtime.rs: the public methods, in any order, from `new` on.
use kamiroh.App.Runtime.Manage.{install, install_party, admit, revoke}
use kamiroh.App.Runtime.Step.{step}
use kamiroh.App.Runtime.{
  new, set_observer, watch_deaths, Ports, LocalRuntime, ActorKind, PeerState, plain_actor,
  LocalActor,
}
use kamiroh.App.Runtime.Invariant.{RuntimeArmed, ActorArmed, PeerArmed}
use kamiroh.Common.{[], ◌∷◌, none, some, true, List, Option, ◌≡◌, is_some, arith}
use kamiroh.Common.Assoc.{get, AllEntries-get}
use kamiroh.Domain.Address.{EndpointId, ActorName, Address, ActorName-discrete, Address-discrete}
use kamiroh.Domain.Allowlist.{Allowlist}
use kamiroh.Domain.Deadline.{Deadlines}
use kamiroh.App.Runtime.Preserved.{install_inner-Keeps, admit-Keeps, revoke-Keeps}
use kamiroh.App.Runtime.Due.{Due, earliest_due}
use kamiroh.App.Parties.{DynParty}
use kamiroh.Domain.Vocabulary.{RequestId}
use kamiroh.App.Runtime.Steps.{step-Keeps}
use kamiroh.App.Runtime.Earliest.{WaitsAtMost, earliest_due_earliest}
use kamiroh.Domain.TurnState.{awaiting_their_turn}

-- A call of a public method, or whatever else happens in the world.
pub data Call (S P : Type 0) : Type 0 where
  install_call : ActorName → Allowlist → Deadlines → ActorKind → Call S P
  party_call : ActorName → Allowlist → Deadlines → DynParty P → Call S P
  admit_call revoke_call : ActorName → EndpointId → Call S P
  step_call : ActorName → List (S → S) → Call S P
  observer_call watch_call : Call S P
  world_moves : (S → S) → Call S P

module _ {S P : Type 0} (ports : Ports S P) where
  unfoldable pub perform : Call S P → LocalRuntime S P → LocalRuntime S P
  perform (install_call name l d k) r = (install ports name l d k r).0
  perform (party_call name l d p) r = (install_party ports name l d p r).0
  perform (admit_call name e) r = (admit ports name e r).0
  perform (revoke_call name e) r = (revoke ports name e r).0
  perform (step_call name wakeups) r = (step ports name wakeups r).0
  perform observer_call r = set_observer r
  perform watch_call r = watch_deaths r
  perform (world_moves f) r = record r { world = f r.world }

  unfoldable pub perform_all : List (Call S P) → LocalRuntime S P → LocalRuntime S P
  perform_all [] r = r
  perform_all (x ∷ xs) r = perform_all xs (perform x r)

  perform-RuntimeArmed :
      (x : Call S P) (r : LocalRuntime S P) → RuntimeArmed r → RuntimeArmed (perform x r)
  unfolding perform install install_party set_observer watch_deaths
  perform-RuntimeArmed (install_call name l d k) r i =
      ((install_inner-Keeps ports name l d k none).at r i).0
  perform-RuntimeArmed (party_call name l d p) r i =
      ((install_inner-Keeps ports name l d plain_actor (some p)).at r i).0
  perform-RuntimeArmed (admit_call name e) r i = ((admit-Keeps ports name e).at r i).0
  perform-RuntimeArmed (revoke_call name e) r i = ((revoke-Keeps ports name e).at r i).0
  perform-RuntimeArmed (step_call name wakeups) r i = ((step-Keeps ports name wakeups).at r i).0
  perform-RuntimeArmed observer_call r i = i
  perform-RuntimeArmed watch_call r i = i
  perform-RuntimeArmed (world_moves f) r i = i

  -- A runtime in which the waits of every conversation of every actor fit its machine keeps them
  -- so through any calls of its methods, with any ports and whatever else moves the world: the
  -- deadline of a peer's turn is armed exactly while that turn is awaited, and an ack waited for is
  -- that of the outstanding request.
  pub perform_all-RuntimeArmed :
      (xs : List (Call S P)) (r : LocalRuntime S P)
      → RuntimeArmed r
      → RuntimeArmed (perform_all xs r)
  unfolding perform_all
  perform_all-RuntimeArmed [] r i = i
  perform_all-RuntimeArmed (x ∷ xs) r i =
      perform_all-RuntimeArmed xs (perform x r) (perform-RuntimeArmed x r i)

  armed_due :
      (due : Option Due) (ps : PeerState) (o : RequestId)
      → PeerArmed ps
      → WaitsAtMost due ps
      → ps.state ≡ awaiting_their_turn o
      → is_some due ≡ true
  armed_due due ps o i h e = ground arith

  -- No exchange lingers without a deadline: after any calls on a new runtime, an actor that awaits
  -- a peer's turn has an earliest deadline, so its next step races one.
  pub awaiting_has_deadline :
      (xs : List (Call S P)) (me : EndpointId) (w : S) (d : Deadlines) (name : ActorName)
      (peer : Address) {a : LocalActor P} {ps : PeerState} {o : RequestId}
      → get ActorName-discrete name (perform_all xs (new me w d)).actors ≡ some a
      → get Address-discrete peer a.conversations ≡ some ps
      → ps.state ≡ awaiting_their_turn o
      → is_some (earliest_due a) ≡ true
  unfolding new
  awaiting_has_deadline xs me w d name peer {a} {ps} {o} h k e =
      let armed =
        AllEntries-get ActorName-discrete (λ _ x. ActorArmed x) name _
          (perform_all-RuntimeArmed xs (new me w d) tt) h in
      armed_due (earliest_due a) ps o
        (AllEntries-get Address-discrete (λ _ x. PeerArmed x) peer a.conversations armed k)
        (AllEntries-get Address-discrete (λ _ x. WaitsAtMost (earliest_due a) x) peer
          a.conversations (earliest_due_earliest a).1 k)
        e
