-- ===== src/App/Runtime/Outlined.antt =====
-- crates/kamiroh-app/src/runtime.rs: the harness commands, as they show.
use kamiroh.Common.{
  sym, ap, refl, [], some, ok, err, inl, inr, Result, ◌≡◌, Bool-cases, Option, Option-cases, Text,
  cond, ◌∙◌,
}
use kamiroh.Common.Assoc.{get, insert, contains_key}
use kamiroh.Domain.Allowlist.{admit, empty}
use kamiroh.Domain.Vocabulary.{Harness, spawn, spawned, stopped, ping, pong}
use kamiroh.App.Outline.{
  Outline, show_command, show_spawn, show_stop, show_bound, named-insert, named-remove,
}
use kamiroh.App.Runtime.{
  LocalRuntime, LocalActor, Ports, RuntimeError, error_text, name_in_use, bind_failed, address_of,
  plain_actor,
}
use kamiroh.App.Runtime.Manage.{install_inner, install_party}
use kamiroh.App.Runtime.Step.{execute, spawn_actor, stop_actor, spawned_allowlist}
use kamiroh.Domain.Address.{ActorName, ActorName-discrete, Address}
use kamiroh.App.Parties.{echo, new_echo}

abbrev pub outline : {S P : Type 0} → LocalRuntime S P → Outline S
outline r = record {
  endpoint = r.endpoint;
  world = r.world;
  named = λ j. contains_key ActorName-discrete j r.actors;
}

module _ {S P : Type 0} (ports : Ports S P) where
  abbrev newcomer : Address → LocalRuntime S P → LocalActor P
  newcomer controller r = record {
    allowlist = admit empty controller.endpoint;
    kind = plain_actor;
    deadlines = r.spawn_deadlines;
    party = some (echo new_echo);
    conversations = [];
  }

  abbrev joined : ActorName → LocalActor P → S → LocalRuntime S P → LocalRuntime S P
  joined name a w r = record r { world = w; actors = insert ActorName-discrete name a r.actors }

  -- What `install_inner` does with a name that is free.
  abbrev install_free :
      ActorName → Address → LocalRuntime S P → LocalRuntime S P × Result (Unit {0}) RuntimeError
  install_free name controller r =
      let (w, bound) = ports.registry.bind r.world (address_of r name) in
      elim bound [
        | err e ↦ (record r { world = w }, err (bind_failed e))
        | ok u ↦ (joined name (newcomer controller r) w r, ok tt)
      ]

  abbrev told_spawn :
      ActorName → LocalRuntime S P × Result (Unit {0}) RuntimeError → Outline S × Option Harness
  told_spawn name y =
      (outline y.0, some (elim y.1 [ ok u ↦ spawned name | err e ↦ Harness.failed (error_text e) ]))

  joined-outline :
      (name : ActorName) (a : LocalActor P) (w : S) (r : LocalRuntime S P)
      (bound : Result (Unit {0}) Text)
      → told_spawn name (elim bound as (λ _. LocalRuntime S P × Result (Unit {0}) RuntimeError) [
        | err e ↦ (record r { world = w }, err (bind_failed e))
        | ok u ↦ (joined name a w r, ok tt)
      ])
        ≡ show_bound ports.registry name (record (outline r) { world = w }) bound
  joined-outline name a w r (err e) = refl
  joined-outline name a w r (ok u) =
      ap (λ f. (record (outline r) { world = w; named = f }, some (spawned name)))
        (λ i j. named-insert name j a r.actors i)

  spawn-outline :
      (name : ActorName) (controller : Address) (r : LocalRuntime S P)
      → let (r', reply) = execute ports (spawn name) controller r in
        (outline r', reply) ≡ show_spawn ports.registry name (outline r)
  unfolding execute spawn_actor spawned_allowlist install_party install_inner
  spawn-outline name controller r =
      elim (Bool-cases (contains_key ActorName-discrete name r.actors)) [
        | inl p ↦ rw (p, execute, spawn_actor, install_party, install_inner) refl
        | inr p ↦
            let (w, bound) = ports.registry.bind r.world (address_of r name) in
            ap (λ b. told_spawn name (cond b (r, err name_in_use) (install_free name controller r)))
              p
            ∙ joined-outline name (newcomer controller r) w r bound
            ∙ ap
                (λ b.
                  cond b (outline r, some (Harness.failed (error_text name_in_use)))
                    (show_bound ports.registry name (record (outline r) { world = w }) bound))
                (sym p)
      ]

  stop-outline :
      (name : ActorName) (controller : Address) (r : LocalRuntime S P)
      → let (r', reply) = execute ports (Harness.stop name) controller r in
        (outline r', reply) ≡ show_stop ports.registry name (outline r)
  unfolding execute stop_actor contains_key
  stop-outline name controller r = elim (Option-cases (get ActorName-discrete name r.actors)) [
    | inl p ↦ rw (p, execute, stop_actor, contains_key) refl
    | inr (x, p) ↦
        rw (p, execute, stop_actor, contains_key)
          (ap
            (λ f. (
              record (outline r) {
                world = ports.registry.unbind r.world (address_of r name);
                named = f;
              },
              some (stopped name),
            ))
            (λ i j. named-remove name j r.actors i))
  ]

  -- What the harness of a LocalRuntime does to its outline, and its reply, is what the command
  -- says, for every command.
  pub execute-outline :
      (command : Harness) (controller : Address) (r : LocalRuntime S P)
      → let (r', reply) = execute ports command controller r in
        (outline r', reply) ≡ show_command ports.registry command (outline r)
  unfolding execute
  execute-outline ping controller r = refl
  execute-outline (spawn name) controller r = spawn-outline name controller r
  execute-outline (Harness.stop name) controller r = stop-outline name controller r
  execute-outline pong controller r = refl
  execute-outline (spawned name) controller r = refl
  execute-outline (stopped name) controller r = refl
  execute-outline (Harness.failed e) controller r = refl
