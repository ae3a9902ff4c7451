-- ===== src/App/Runtime/Commands.antt =====
-- crates/kamiroh-app/src/runtime.rs: the harness commands that spawn and stop actors.
use kamiroh.App.Runtime.Step.{execute, spawn_actor, stop_actor, spawned_allowlist}
use kamiroh.Common.Sets.{contains, insert as insert_endpoint}
use mathlib.Core.Path.{sym, subst}
use kamiroh.App.Runtime.Manage.{install_party, install_inner}
use kamiroh.App.Runtime.{LocalRuntime, LocalActor, Ports, address_of, plain_actor, error_text}
use kamiroh.App.Parties.{echo, new_echo}
use kamiroh.Domain.Allowlist.{allows, admit, empty}
use kamiroh.Domain.Vocabulary.{Harness, spawn, stop, spawned, stopped}
use kamiroh.Common.Assoc.{
  get, insert, remove, contains_key, get-insert_self, get-insert, get-remove,
}
use kamiroh.Common.{ok, some, none, [], ◌≡◌, same, arith, err, List, ◌∙◌, ite}
use mathlib.Core.Path.{ap, refl}
use kamiroh.Domain.Address.{ActorName, Address, ActorName-discrete, EndpointId, EndpointId-discrete}

removed_inserted :
    {P : Type 0} (name j : ActorName) (a : LocalActor P) (actors : List (ActorName × LocalActor P))
    → get ActorName-discrete name actors ≡ none
    → get ActorName-discrete j
        (remove ActorName-discrete name (insert ActorName-discrete name a actors))
      ≡ get ActorName-discrete j actors
removed_inserted name j a actors h =
    get-remove ActorName-discrete name j (insert ActorName-discrete name a actors)
    ∙ ap (ite (ActorName-discrete name j) none) (get-insert ActorName-discrete name j a actors)
    ∙ elim (ActorName-discrete name j)
        as (λ d.
          ite d none (ite d (some a) (get ActorName-discrete j actors))
          ≡ get ActorName-discrete j actors) [
            | yes e ↦ sym (ap (λ x. get ActorName-discrete x actors) (sym e) ∙ h)
            | no e ↦ refl
          ]

-- A new allowlist that admits one endpoint.
admitted : (c e : EndpointId) → allows (admit empty c) e ≡ same EndpointId-discrete c e
unfolding allows admit empty insert_endpoint contains
admitted c e = ground arith

module _ {S P : Type 0} (ports : Ports S P) where
  abbrev spawned_actor : Address → LocalRuntime S P → LocalActor P
  spawned_actor controller r = record {
    allowlist = admit empty controller.endpoint;
    kind = plain_actor;
    deadlines = r.spawn_deadlines;
    party = some (echo new_echo);
    conversations = [];
  }

  -- The runtime after a name was free and its binding succeeded.
  abbrev spawned_in : ActorName → Address → LocalRuntime S P → S → LocalRuntime S P
  spawned_in name controller r w = record r {
    world = w;
    actors = insert ActorName-discrete name (spawned_actor controller r) r.actors;
  }

  install_inner_eq :
      (name : ActorName) (a : LocalActor P) (r : LocalRuntime S P) {w : S}
      → get ActorName-discrete name r.actors ≡ none
      → ports.registry.bind r.world (address_of r name) ≡ (w, ok tt)
      → install_inner ports name a.allowlist a.deadlines a.kind a.party r ≡ (
        record r {
          world = w;
          actors = insert ActorName-discrete name (record a { conversations = [] }) r.actors;
        },
        ok tt,
      )
  unfolding install_inner contains_key
  install_inner_eq name a r {w} h k =
      rw (h, ap (λ x. x.1) k, ap (λ x. x.0) k, install_inner, contains_key) refl

  execute_spawn_eq :
      (name : ActorName) (controller : Address) (r : LocalRuntime S P) {w : S}
      → get ActorName-discrete name r.actors ≡ none
      → ports.registry.bind r.world (address_of r name) ≡ (w, ok tt)
      → execute ports (spawn name) controller r
        ≡ (spawned_in name controller r w, some (spawned name))
  unfolding execute spawn_actor spawned_allowlist install_party
  execute_spawn_eq name controller r {w} h k =
      ap
        (λ y.
          (y.0, some (elim y.1 [ ok u ↦ spawned name | err e ↦ Harness.failed (error_text e) ])))
        (install_inner_eq name (spawned_actor controller r) r h k)

  -- Spawning a free name whose binding succeeds replies so and installs an echo party without
  -- conversations, under the runtime's spawn deadlines, that allows exactly the endpoint of the
  -- controller.
  pub execute_spawn_free :
      (name : ActorName) (controller : Address) (r : LocalRuntime S P) {w : S}
      → get ActorName-discrete name r.actors ≡ none
      → ports.registry.bind r.world (address_of r name) ≡ (w, ok tt)
      → let (r', reply) = execute ports (spawn name) controller r in
        (reply ≡ some (spawned name))
        × (r'.world ≡ w)
        × ((a : LocalActor P) × (get ActorName-discrete name r'.actors ≡ some a)
            × (a.party ≡ some (echo new_echo))
            × (a.conversations ≡ [])
            × (a.deadlines ≡ r.spawn_deadlines)
            × ((e : EndpointId)
                → allows a.allowlist e ≡ same EndpointId-discrete controller.endpoint e))
  execute_spawn_free name controller r {w} h k =
      subst
        (λ y.
          (y.1 ≡ some (spawned name))
          × (y.0.world ≡ w)
          × ((a : LocalActor P) × (get ActorName-discrete name y.0.actors ≡ some a)
              × (a.party ≡ some (echo new_echo))
              × (a.conversations ≡ [])
              × (a.deadlines ≡ r.spawn_deadlines)
              × ((e : EndpointId)
                  → allows a.allowlist e ≡ same EndpointId-discrete controller.endpoint e)))
        (sym (execute_spawn_eq name controller r h k))
        (
          refl,
          refl,
          (
            spawned_actor controller r,
            get-insert_self ActorName-discrete name (spawned_actor controller r) r.actors,
            refl,
            refl,
            refl,
            λ e. admitted controller.endpoint e,
          ),
        )

  -- The runtime after an installed actor was removed.
  abbrev stopped_in : ActorName → LocalRuntime S P → LocalRuntime S P
  stopped_in name r = record r {
    actors = remove ActorName-discrete name r.actors;
    world = ports.registry.unbind r.world (address_of r name);
  }

  stop_actor_eq :
      (name : ActorName) (r : LocalRuntime S P) {a : LocalActor P}
      → get ActorName-discrete name r.actors ≡ some a
      → stop_actor ports name r ≡ (stopped_in name r, stopped name)
  unfolding stop_actor
  stop_actor_eq name r h = rw (h, stop_actor) refl

  execute-stop_eq :
      (name : ActorName) (controller : Address) (r : LocalRuntime S P) {a : LocalActor P}
      → get ActorName-discrete name r.actors ≡ some a
      → execute ports (stop name) controller r ≡ (stopped_in name r, some (stopped name))
  unfolding execute
  execute-stop_eq name controller r h = ap (λ y. (y.0, some y.1)) (stop_actor_eq name r h)

  -- An actor that is spawned under a free name and then stopped leaves every other actor as it
  -- was and the name free; both commands are confirmed, and the address is unbound again.
  pub spawn_then_stop :
      (name : ActorName) (controller : Address) (r : LocalRuntime S P) {w : S}
      → get ActorName-discrete name r.actors ≡ none
      → ports.registry.bind r.world (address_of r name) ≡ (w, ok tt)
      → let (r1, first) = execute ports (spawn name) controller r in
        let (r2, second) = execute ports (stop name) controller r1 in
        (first ≡ some (spawned name))
        × (second ≡ some (stopped name))
        × (r2.world ≡ ports.registry.unbind w (address_of r name))
        × ((j : ActorName) → get ActorName-discrete j r2.actors ≡ get ActorName-discrete j r.actors)
  spawn_then_stop name controller r {w} h k =
      subst
        (λ y.
          let (r2, second) = execute ports (stop name) controller y.0 in
          (y.1 ≡ some (spawned name))
          × (second ≡ some (stopped name))
          × (r2.world ≡ ports.registry.unbind w (address_of r name))
          × ((j : ActorName)
              → get ActorName-discrete j r2.actors ≡ get ActorName-discrete j r.actors))
        (sym (execute_spawn_eq name controller r h k))
        (subst
          (λ y.
            (some (spawned name) ≡ some (spawned name))
            × (y.1 ≡ some (stopped name))
            × (y.0.world ≡ ports.registry.unbind w (address_of r name))
            × ((j : ActorName)
                → get ActorName-discrete j y.0.actors ≡ get ActorName-discrete j r.actors))
          (sym (
            execute-stop_eq name controller (spawned_in name controller r w)
              (get-insert_self ActorName-discrete name (spawned_actor controller r) r.actors)))
          (refl, refl, refl, λ j. removed_inserted name j (spawned_actor controller r) r.actors h))
