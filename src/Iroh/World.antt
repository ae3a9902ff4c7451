-- ===== src/Iroh/World.antt =====
-- crates/kamiroh-adapter-iroh/src/lib.rs: the adapter as an implementation of the ports. The inbox
-- at an address is the channel that its name is bound to.
use kamiroh.Iroh.Shared.{Shared}
use kamiroh.Iroh.Net.{bind, next, drop_inbox}
use kamiroh.Iroh.Deaths.{next_death}
use kamiroh.Iroh.Sending.{send, open_many}
use kamiroh.Common.{none, some, ok, err, Text, Result, ℕ}
use kamiroh.Iroh.External.{External}
use kamiroh.Ports.{Inbox, Registry, Transport, DeathWatch, ready}
use kamiroh.Iroh.Errors.{net_error_text, transport_error_text}
use kamiroh.Common.Assoc.{get}
use kamiroh.Domain.Address.{ActorName-discrete}

abbrev as_text : {A X : Type 0} → (X → Text) → Result A X → Result (Unit {0}) Text
as_text print (ok a) = ok tt
as_text print (err e) = err (print e)

module _ (E : External) where
  abbrev pub iroh_transport : Transport (Shared E)
  iroh_transport = record {
    send = λ s from to m. let (s', r) = send E s from to m in (s', as_text transport_error_text r);
    open_many = λ s from e names q.
        let (s', r) = open_many E s from e names q in (s', as_text transport_error_text r);
  }

  abbrev pub iroh_registry : Registry (Shared E)
  iroh_registry = record {
    bind = λ s a. let (s', r) = bind E s a in (s', as_text net_error_text r);
    unbind = λ s a. elim (get ActorName-discrete a.name s.bound) [
      | none ↦ s
      | some c ↦ drop_inbox E s c
    ];
  }

  abbrev pub iroh_inbox : Inbox (Shared E)
  iroh_inbox = record {
    poll_next = λ s a. elim (get ActorName-discrete a.name s.bound) [
      | none ↦ (s, ready none)
      | some c ↦ next E s c
    ];
  }

  -- The polls of one task, at the watch at a position.
  abbrev pub iroh_deaths : ℕ → ℕ → DeathWatch (Shared E)
  iroh_deaths task i = record { poll_death = λ s. next_death E task i s }
