-- ===== src/App/Runtime.antt =====
-- crates/kamiroh-app/src/runtime.rs: the state of the single-endpoint runtime, its errors, and
-- the monad of its methods, which keep what they have changed when they return an error.
pub mod Viewed
pub mod Hearing
pub mod Outlined
pub mod Preserved
pub mod Steps
pub mod Calls
pub mod Revoking
pub mod Replies
pub mod Answering
pub mod Denying
pub mod Commands
pub mod Sweeping
pub mod Failing
pub mod Affected
pub mod Earliest
pub mod Invariant
pub mod Manage
pub mod Due
pub mod Turns
pub mod Step
use mathlib.Core.Option.{map as map_option}
use kamiroh.Common.Assoc.{insert, get}
use kamiroh.Domain.TurnState.{idle, TurnState}
use kamiroh.Common.{
  [], ◌∷◌, Result, Text, err, none, ok, some, true, Option, codes, ◌++◌, List, false, ℕ, Bool,
}
use kamiroh.Domain.Allowlist.{Allowlist}
use kamiroh.Domain.Address.{ActorName, Address, EndpointId, ActorName-discrete}
use kamiroh.Ports.{Event, Transport, Registry, Inbox, Timer, DeathWatch, Party}
use kamiroh.Domain.Deadline.{Deadlines, FailureCause}
use kamiroh.Domain.Vocabulary.{RequestId}
use kamiroh.App.Parties.{DynParty}

pub data ActorKind : Type 0 where
  harness_actor plain_actor : ActorKind

pub record PeerState : Type 0 where
  pub state : TurnState
  pub ack_due : Option (RequestId × ℕ)
  pub turn_due : Option ℕ

-- `PeerState::default`.
abbrev pub no_exchange_yet : PeerState
no_exchange_yet = record { state = idle; ack_due = none; turn_due = none }

-- The inbox of an actor is the one bound at its address.
pub record LocalActor (P : Type 0) : Type 0 where
  pub allowlist : Allowlist
  pub kind : ActorKind
  pub deadlines : Deadlines
  pub party : Option (DynParty P)
  pub conversations : List (Address × PeerState)

pub data Stepped : Type 0 where
  delivered : Stepped
  exchange_failed_step : Address → FailureCause → Stepped
  peer_vanished : EndpointId → ℕ → Stepped

-- `observer` holds the events that a set observer was given, oldest first. `world` is what the
-- transport, the registry, the timer and the death watch stand on.
pub record LocalRuntime (S P : Type 0) : Type 0 where
  pub endpoint : EndpointId
  pub world : S
  pub spawn_deadlines : Deadlines
  pub observer : Option (List Event)
  pub death_watch : Bool
  pub dead : List EndpointId
  pub actors : List (ActorName × LocalActor P)

pub data RuntimeError : Type 0 where
  unknown_actor name_in_use inbox_closed : RuntimeError
  bind_failed transport_failed : Text → RuntimeError

-- `impl Display for RuntimeError`.
unfoldable pub error_text : RuntimeError → Text
error_text unknown_actor = codes "no such actor in this runtime"
error_text name_in_use = codes "an actor with this name is already installed"
error_text inbox_closed = codes "the actor's inbox is closed"
error_text (bind_failed e) = codes "binding failed: " ++ e
error_text (transport_failed e) = codes "transport failed: " ++ e

-- The ports that a runtime is given.
pub record Ports (S P : Type 0) : Type 0 where
  pub transport : Transport S
  pub registry : Registry S
  pub inbox : Inbox S
  pub timer : Timer S
  pub deaths : DeathWatch S
  pub own : Party P

-- A method: the runtime after it, and its result.
abbrev pub M : Type 0 → Type 0 → Type 0 → Type 0
M S P A = LocalRuntime S P → LocalRuntime S P × Result A RuntimeError

module _ {S P A B : Type 0} where
  infixl 5 ◌>>=◌ ◌>>◌
  abbrev pub ◌>>=◌ : M S P A → (A → M S P B) → M S P B
  ◌>>=◌ m f r = let (r', result) = m r in elim result [ ok a ↦ f a r' | err e ↦ (r', err e) ]

  abbrev pub ◌>>◌ : M S P A → M S P B → M S P B
  m >> k = m >>= λ _. k

module _ {S P A : Type 0} where
  abbrev pub pure : A → M S P A
  pure a r = (r, ok a)

  abbrev pub throw : RuntimeError → M S P A
  throw e r = (r, err e)

module _ {S P : Type 0} where
  -- `LocalRuntime::new`.
  unfoldable pub new : EndpointId → S → Deadlines → LocalRuntime S P
  new e w d = record {
    endpoint = e;
    world = w;
    spawn_deadlines = d;
    observer = none;
    death_watch = false;
    dead = [];
    actors = [];
  }

  unfoldable pub set_observer : LocalRuntime S P → LocalRuntime S P
  set_observer r = record r { observer = some [] }

  unfoldable pub watch_deaths : LocalRuntime S P → LocalRuntime S P
  watch_deaths r = record r { death_watch = true }

  unfoldable pub emit : Event → LocalRuntime S P → LocalRuntime S P
  emit e r = record r { observer = map_option (λ log. log ++ e ∷ []) r.observer }

  -- `actors.get_mut(name).ok_or(UnknownActor)`.
  abbrev pub actor_at : ActorName → M S P (LocalActor P)
  actor_at name r = elim (get ActorName-discrete name r.actors) [
    | none ↦ (r, err unknown_actor)
    | some a ↦ (r, ok a)
  ]

  -- What is written through that reference.
  abbrev pub write_actor : ActorName → LocalActor P → M S P (Unit {0})
  write_actor name a r = (record r { actors = insert ActorName-discrete name a r.actors }, ok tt)

  abbrev pub address_of : LocalRuntime S P → ActorName → Address
  address_of r name = record { endpoint = r.endpoint; name = name }
