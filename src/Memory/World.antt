-- ===== src/Memory/World.antt =====
-- The memory adapter as an implementation of the ports: one network, one clock, one task.
use kamiroh.Memory.Net.{
  send, open_many, register, unregister, poll_next, Shared, MemoryTransportError, RegisterError,
}
use kamiroh.Memory.Faults.{poll_death}
use kamiroh.Memory.Clock.{poll_sleep, TestClock}
use kamiroh.Common.{Result, ℕ, Text, ok, err, codes}
use kamiroh.Ports.{Registry, Transport, DeathWatch, Inbox, Timer}

pub record Sim : Type 0 where
  pub net : Shared
  pub clock : TestClock

-- `impl Display` of the adapter's errors.
abbrev transport_text : Result (Unit {0}) MemoryTransportError → Result (Unit {0}) Text
transport_text (ok u) = ok u
transport_text (err MemoryTransportError.unknown_address) =
    err (codes "no actor is registered at the target address")

abbrev register_text : Result (Unit {0}) RegisterError → Result (Unit {0}) Text
register_text (ok u) = ok u
register_text (err RegisterError.address_in_use) =
    err (codes "an actor with this address is already registered")

abbrev pub memory_transport : Transport Sim
memory_transport = record {
  send =
      λ s from to m. let (n, r) = send s.net from to m in (record s { net = n }, transport_text r);
  open_many = λ s from e names q.
      let (n, r) = open_many s.net from e names q in (record s { net = n }, transport_text r);
}

abbrev pub memory_registry : Registry Sim
memory_registry = record {
  bind = λ s a. let (n, r) = register s.net a in (record s { net = n }, register_text r);
  unbind = λ s a. record s { net = unregister s.net a };
}

-- The polls of one task.
abbrev pub memory_inbox : ℕ → Inbox Sim
memory_inbox task = record {
  poll_next = λ s a. let (n, polled) = poll_next task s.net a in (record s { net = n }, polled);
}

abbrev pub test_timer : ℕ → Timer Sim
test_timer task = record {
  now = λ s. s.clock.now;
  poll_sleep = λ s at. let (c, due) = poll_sleep task s.clock at in (record s { clock = c }, due);
}

abbrev pub memory_deaths : ℕ → ℕ → DeathWatch Sim
memory_deaths task i = record {
  poll_death = λ s. let (n, polled) = poll_death task i s.net in (record s { net = n }, polled);
}
