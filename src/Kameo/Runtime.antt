-- ===== src/Kameo/Runtime.antt =====
-- crates/kamiroh-adapter-kameo/src/lib.rs: the runtime and its roster. The handles of the source
-- share one `Inner`, which is passed along. An entry of the roster stands for its actor and for
-- the pump that feeds it. A handler runs on its actor together with what it shares with the
-- runtime, and an actor that was stopped meanwhile is not put back.
use kamiroh.Ports.{pending, ready}
use mathlib.Core.Option.{map as map_option}
use kamiroh.Kameo.Host.{Host, Hosted, Report, admit_here, revoke_here, peer_died}
use kamiroh.Kameo.Timers.{deadline_reported}
use kamiroh.App.Runtime.{
  ActorKind, plain_actor, RuntimeError, unknown_actor, name_in_use, bind_failed,
}
use kamiroh.Common.Assoc.{get, insert, remove, modify, contains_key}
use kamiroh.Common.{
  [], ◌∷◌, none, some, ok, err, true, false, List, Result, Bool, Option, ℕ, cond, ◌++◌,
}
use kamiroh.Domain.Address.{ActorName, EndpointId, ActorName-discrete, Address}
use kamiroh.Ports.{Event, Party, Registry, DeathWatch}
use kamiroh.Domain.Deadline.{Deadlines}
use kamiroh.Domain.Allowlist.{Allowlist}
use kamiroh.App.Parties.{DynParty}

pub record Entry (P : Type 0) : Type 0 where
  pub host : Host P
  pub tasks : List Report

pub record KameoRuntime (S P : Type 0) : Type 0 where
  pub endpoint : EndpointId
  pub world : S
  pub roster : List (ActorName × Entry P)
  pub spawn_deadlines : Deadlines
  pub observer : Option (List Event)

module _ {S P : Type 0} where
  unfoldable pub new : EndpointId → S → Deadlines → KameoRuntime S P
  new e w d = record { endpoint = e; world = w; roster = []; spawn_deadlines = d; observer = none }

  unfoldable pub set_observer : KameoRuntime S P → KameoRuntime S P
  set_observer r = record r { observer = some [] }

  abbrev pub host_address : KameoRuntime S P → ActorName → Address
  host_address r name = record { endpoint = r.endpoint; name = name }

  -- An actor with what it shares with its runtime, and its return.
  abbrev pub hosted : KameoRuntime S P → Entry P → Hosted S P
  hosted r x = record { host = x.host; world = r.world; events = r.observer; tasks = x.tasks }

  abbrev pub put_back : ActorName → Hosted S P → KameoRuntime S P → KameoRuntime S P
  put_back name h r = record r {
    world = h.world;
    observer = h.events;
    roster =
        modify ActorName-discrete name (λ x. record { host = h.host; tasks = h.tasks }) r.roster;
  }

  -- A message that an actor handles, if it is on the roster.
  unfoldable pub in_host :
      ActorName → (Hosted S P → Hosted S P) → KameoRuntime S P → KameoRuntime S P
  in_host name f r = elim (get ActorName-discrete name r.roster) [
    | none ↦ r
    | some x ↦ put_back name (f (hosted r x)) r
  ]

  -- `emit`.
  unfoldable pub emit_here : Event → KameoRuntime S P → KameoRuntime S P
  emit_here e r = record r { observer = map_option (λ log. log ++ e ∷ []) r.observer }

module _ {S P : Type 0} (registry : Registry S) where
  unfoldable pub install_inner :
      ActorName
      → Allowlist
      → Deadlines
      → ActorKind
      → Option (DynParty P)
      → KameoRuntime S P
      → KameoRuntime S P × Result (Unit {0}) RuntimeError
  unfolding contains_key
  install_inner name allowlist deadlines kind party r =
      cond (contains_key ActorName-discrete name r.roster) (r, err name_in_use)
        (let (w, bound) = registry.bind r.world (host_address r name) in
          elim bound [
            | err e ↦ (record r { world = w }, err (bind_failed e))
            | ok u ↦ (
              record r {
                world = w;
                roster =
                    insert ActorName-discrete name
                      (record {
                        host = record {
                          address = host_address r name;
                          allowlist = allowlist;
                          kind = kind;
                          deadlines = deadlines;
                          party = party;
                          conversations = [];
                        };
                        tasks = [];
                      })
                      r.roster;
              },
              ok tt,
            )
          ])

  unfoldable pub install :
      ActorName
      → Allowlist
      → Deadlines
      → ActorKind
      → KameoRuntime S P
      → KameoRuntime S P × Result (Unit {0}) RuntimeError
  unfolding install_inner
  install name allowlist deadlines kind = install_inner name allowlist deadlines kind none

  unfoldable pub install_party :
      ActorName
      → Allowlist
      → Deadlines
      → DynParty P
      → KameoRuntime S P
      → KameoRuntime S P × Result (Unit {0}) RuntimeError
  unfolding install_inner
  install_party name allowlist deadlines party =
      install_inner name allowlist deadlines plain_actor (some party)

  -- `stop`: the pump ends, which unbinds the address, and the actor is killed.
  unfoldable pub stop :
      ActorName → KameoRuntime S P → KameoRuntime S P × Result (Unit {0}) RuntimeError
  stop name r = elim (get ActorName-discrete name r.roster) [
    | none ↦ (r, err unknown_actor)
    | some x ↦ (
      record r {
        roster = remove ActorName-discrete name r.roster;
        world = registry.unbind r.world (host_address r name);
      },
      ok tt,
    )
  ]

module _ {S P : Type 0} (own : Party P) where
  unfoldable pub admit :
      ActorName → EndpointId → KameoRuntime S P → KameoRuntime S P × Result (Unit {0}) RuntimeError
  unfolding in_host
  admit name e r = elim (get ActorName-discrete name r.roster) [
    | none ↦ (r, err unknown_actor)
    | some x ↦ (in_host name (admit_here own e) r, ok tt)
  ]

  unfoldable pub revoke :
      ActorName → EndpointId → KameoRuntime S P → KameoRuntime S P × Result ℕ RuntimeError
  revoke name e r = elim (get ActorName-discrete name r.roster) [
    | none ↦ (r, err unknown_actor)
    | some x ↦ let (h, n) = revoke_here own e (hosted r x) in (put_back name h r, ok n)
  ]

  unfoldable pub report_elapsed : ActorName → Report → KameoRuntime S P → KameoRuntime S P
  unfolding in_host
  report_elapsed name x r = in_host name (deadline_reported own x) r

  -- The fan-out of a death to the actors that are on the roster.
  unfoldable pub fan_out :
      EndpointId → List (ActorName × Entry P) → KameoRuntime S P → KameoRuntime S P
  unfolding in_host
  fan_out e [] r = r
  fan_out e ((name, x) ∷ names) r = fan_out e names (in_host name (peer_died own e) r)

  -- One turn of the task of `watch_deaths`, and whether it goes on.
  unfoldable pub watch_deaths : DeathWatch S → KameoRuntime S P → KameoRuntime S P × Bool
  unfolding fan_out
  watch_deaths watch r =
      let (w, polled) = watch.poll_death r.world in
      let r' = record r { world = w } in
      elim polled [
        | pending ↦ (r', true)
        | ready none ↦ (r', false)
        | ready (some e) ↦ (fan_out e r'.roster r', true)
      ]
