-- ===== src/Kameo/Commanding.antt =====
-- crates/kamiroh-adapter-kameo/src/lib.rs: the harness commands, as they show.
use kamiroh.Common.{
  sym, ap, refl, some, ok, err, inl, inr, Option, cond, ◌≡◌, Bool-cases, [], Result, ◌∙◌, Text,
  Option-cases,
}
use kamiroh.Domain.Allowlist.{admit, empty}
use kamiroh.Common.Assoc.{insert, contains_key, get}
use kamiroh.Kameo.Runtime.{stop, KameoRuntime, Entry, install_inner, install_party, host_address}
use kamiroh.Kameo.Deliver.{stop_reply, execute, spawn_reply}
use kamiroh.App.Runtime.{RuntimeError, error_text, name_in_use, bind_failed, plain_actor}
use kamiroh.Domain.Address.{ActorName, Address, ActorName-discrete}
use kamiroh.Ports.{Registry, Transport, Party}
use kamiroh.Domain.Vocabulary.{Harness, spawn, spawned, stopped, ping, pong}
use kamiroh.App.Parties.{echo, new_echo}
use kamiroh.App.Outline.{
  Outline, show_bound, show_command, show_spawn, show_stop, named-insert, named-remove,
}

module _ {S P : Type 0} (net : Transport S) (registry : Registry S) (own : Party P) where
  abbrev pub outline : KameoRuntime S P → Outline S
  outline r = record {
    endpoint = r.endpoint;
    world = r.world;
    named = λ j. contains_key ActorName-discrete j r.roster;
  }

  -- The runtime with a new actor.
  abbrev joined : ActorName → Entry P → S → KameoRuntime S P → KameoRuntime S P
  joined name x w r = record r { world = w; roster = insert ActorName-discrete name x r.roster }

  abbrev newcomer : ActorName → Address → KameoRuntime S P → Entry P
  newcomer name controller r = record {
    host = record {
      address = host_address r name;
      allowlist = admit empty controller.endpoint;
      kind = plain_actor;
      deadlines = r.spawn_deadlines;
      party = some (echo new_echo);
      conversations = [];
    };
    tasks = [];
  }

  -- What `install_inner` does with a name that is free.
  abbrev install_free :
      ActorName → Address → KameoRuntime S P → KameoRuntime S P × Result (Unit {0}) RuntimeError
  install_free name controller r =
      let (w, bound) = registry.bind r.world (host_address r name) in
      elim bound [
        | err e ↦ (record r { world = w }, err (bind_failed e))
        | ok u ↦ (joined name (newcomer name controller r) w r, ok tt)
      ]

  abbrev told_spawn :
      ActorName → KameoRuntime S P × Result (Unit {0}) RuntimeError → Outline S × Option Harness
  told_spawn name y = (outline y.0, some (spawn_reply net registry own name y.1))

  joined-outline :
      (name : ActorName) (x : Entry P) (w : S) (r : KameoRuntime S P)
      (bound : Result (Unit {0}) Text)
      → told_spawn name (elim bound as (λ _. KameoRuntime S P × Result (Unit {0}) RuntimeError) [
        | err e ↦ (record r { world = w }, err (bind_failed e))
        | ok u ↦ (joined name x w r, ok tt)
      ])
        ≡ show_bound registry name (record (outline r) { world = w }) bound
  unfolding spawn_reply
  joined-outline name x w r (err e) = refl
  joined-outline name x w r (ok u) =
      ap (λ f. (record (outline r) { world = w; named = f }, some (spawned name)))
        (λ i j. named-insert name j x r.roster i)

  spawn-outline :
      (name : ActorName) (controller : Address) (r : KameoRuntime S P)
      → let (r', reply) = execute net registry own (spawn name) controller r in
        (outline r', reply) ≡ show_spawn registry name (outline r)
  unfolding execute install_party install_inner
  spawn-outline name controller r =
      elim (Bool-cases (contains_key ActorName-discrete name r.roster)) [
        | inl p ↦ rw (p, execute, install_party, install_inner, spawn_reply) refl
        | inr p ↦
            let (w, bound) = registry.bind r.world (host_address r name) in
            ap (λ b. told_spawn name (cond b (r, err name_in_use) (install_free name controller r)))
              p
            ∙ joined-outline name (newcomer name controller r) w r bound
            ∙ ap
                (λ b.
                  cond b (outline r, some (Harness.failed (error_text name_in_use)))
                    (show_bound registry name (record (outline r) { world = w }) bound))
                (sym p)
      ]

  stop-outline :
      (name : ActorName) (controller : Address) (r : KameoRuntime S P)
      → let (r', reply) = execute net registry own (Harness.stop name) controller r in
        (outline r', reply) ≡ show_stop registry name (outline r)
  unfolding execute stop contains_key
  stop-outline name controller r = elim (Option-cases (get ActorName-discrete name r.roster)) [
    | inl p ↦ rw (p, execute, stop, stop_reply, contains_key) refl
    | inr (x, p) ↦
        rw (p, execute, stop, stop_reply, contains_key)
          (ap
            (λ f. (
              record (outline r) {
                world = registry.unbind r.world (host_address r name);
                named = f;
              },
              some (stopped name),
            ))
            (λ i j. named-remove name j r.roster i))
  ]

  -- What a Kameo host's harness does to the outline of its runtime, and its reply, is what the
  -- command says, for every command.
  pub execute-outline :
      (command : Harness) (controller : Address) (r : KameoRuntime S P)
      → let (r', reply) = execute net registry own command controller r in
        (outline r', reply) ≡ show_command registry command (outline r)
  unfolding execute
  execute-outline ping controller r = refl
  execute-outline (spawn name) controller r = spawn-outline name controller r
  execute-outline (Harness.stop name) controller r = stop-outline name controller r
  execute-outline pong controller r = refl
  execute-outline (spawned name) controller r = refl
  execute-outline (stopped name) controller r = refl
  execute-outline (Harness.failed e) controller r = refl
