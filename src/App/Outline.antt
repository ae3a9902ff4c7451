-- ===== src/App/Outline.antt =====
-- crates/kamiroh-app/src/runtime.rs and crates/kamiroh-adapter-kameo/src/lib.rs: what the harness
-- commands promise their controller.
use kamiroh.Common.{
  none, some, ok, err, true, false, Bool, List, Option, Result, Text, cond, ite, ◌≡◌, arith, codes,
}
use kamiroh.Common.Assoc.{insert, remove, contains_key, get-insert, get-remove}
use kamiroh.Domain.Vocabulary.{Harness, spawn, spawned, stopped, ping, pong}
use kamiroh.App.Runtime.{error_text, name_in_use, bind_failed}
use kamiroh.Domain.Address.{ActorName, EndpointId, Address, ActorName-discrete}
use kamiroh.Ports.{Registry}

-- What a controller can tell of a runtime: its endpoint, its world and its actors' names.
pub record Outline (S : Type 0) : Type 0 where
  pub endpoint : EndpointId
  pub world : S
  pub named : ActorName → Bool

-- A command as it shows, with its reply.
module _ {S : Type 0} (registry : Registry S) where
  abbrev pub at_name : Outline S → ActorName → Address
  at_name o name = record { endpoint = o.endpoint; name = name }

  -- A name that is taken or free from now on.
  abbrev pub with_name : ActorName → Bool → Outline S → Outline S
  with_name name b o = record o { named = λ j. ite (ActorName-discrete name j) b (o.named j) }

  abbrev pub show_bound :
      ActorName → Outline S → Result (Unit {0}) Text → Outline S × Option Harness
  show_bound name o (err e) = (o, some (Harness.failed (error_text (bind_failed e))))
  show_bound name o (ok u) = (with_name name true o, some (spawned name))

  abbrev pub show_spawn : ActorName → Outline S → Outline S × Option Harness
  show_spawn name o =
      let (w, bound) = registry.bind o.world (at_name o name) in
      cond (o.named name) (o, some (Harness.failed (error_text name_in_use)))
        (show_bound name (record o { world = w }) bound)

  abbrev pub show_stop : ActorName → Outline S → Outline S × Option Harness
  show_stop name o =
      cond (o.named name)
        (
          with_name name false (record o { world = registry.unbind o.world (at_name o name) }),
          some (stopped name),
        )
        (o, some (Harness.failed (codes "no such actor")))

  abbrev pub show_command : Harness → Outline S → Outline S × Option Harness
  show_command ping o = (o, some pong)
  show_command (spawn name) o = show_spawn name o
  show_command (Harness.stop name) o = show_stop name o
  show_command _ o = (o, none)

-- Which names a map holds after a write and after a removal.
pub named-insert :
    {V : Type 0} (name j : ActorName) (v : V) (m : List (ActorName × V))
    → contains_key ActorName-discrete j (insert ActorName-discrete name v m)
      ≡ ite (ActorName-discrete name j) true (contains_key ActorName-discrete j m)
unfolding contains_key
named-insert name j v m = ground (arith, get-insert ActorName-discrete name j v m)

pub named-remove :
    {V : Type 0} (name j : ActorName) (m : List (ActorName × V))
    → contains_key ActorName-discrete j (remove ActorName-discrete name m)
      ≡ ite (ActorName-discrete name j) false (contains_key ActorName-discrete j m)
unfolding contains_key
named-remove name j m = ground (arith, get-remove ActorName-discrete name j m)
