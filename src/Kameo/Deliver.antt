-- ===== src/Kameo/Deliver.antt =====
-- crates/kamiroh-adapter-kameo/src/lib.rs: the handler of `Deliver`, whole, the harness commands,
-- and the pump.
use kamiroh.Ports.{pending, ready}
use kamiroh.Kameo.Runtime.{KameoRuntime, Entry, install_party, stop, in_host, emit_here}
use kamiroh.Kameo.Timers.{take_turn, take_ack}
use kamiroh.App.Inbound.{
  process, Inbound, denied, inbound_request, ack_received, inbound_harness, inbound_turn,
}
use kamiroh.App.Runtime.{ActorKind, RuntimeError, error_text}
use kamiroh.App.Runtime.Step.{is_harness}
use kamiroh.Domain.Vocabulary.{
  spawn, spawned, stopped, ping, pong, Harness, Message, harness_message,
}
use kamiroh.Domain.Allowlist.{admit, empty}
use kamiroh.Common.Assoc.{get}
use kamiroh.Common.{none, some, ok, err, true, false, Bool, Option, Result, cond, codes}
use kamiroh.Ports.{Transport, Registry, Party, Inbox, Delivery, delivery_denied}
use kamiroh.Domain.Address.{ActorName, Address, ActorName-discrete}
use kamiroh.App.Parties.{echo, new_echo}

module _ {S P : Type 0} (net : Transport S) (registry : Registry S) (own : Party P) where
  -- A send whose failure is ignored.
  unfoldable pub send_to : Address → Address → Message → KameoRuntime S P → KameoRuntime S P
  send_to me peer m r = record r { world = (net.send r.world me peer m).0 }

  unfoldable pub spawn_reply : ActorName → Result (Unit {0}) RuntimeError → Harness
  spawn_reply name (ok u) = spawned name
  spawn_reply name (err e) = Harness.failed (error_text e)

  unfoldable pub stop_reply : ActorName → Result (Unit {0}) RuntimeError → Harness
  stop_reply name (ok u) = stopped name
  stop_reply name (err e) = Harness.failed (codes "no such actor")

  -- `Host::execute`.
  unfoldable pub execute : Harness → Address → KameoRuntime S P → KameoRuntime S P × Option Harness
  unfolding spawn_reply stop_reply
  execute ping controller r = (r, some pong)
  execute (spawn name) controller r =
      let (r', result) =
        install_party registry name (admit empty controller.endpoint) r.spawn_deadlines
          (echo new_echo) r in
      (r', some (spawn_reply name result))
  execute (Harness.stop name) controller r =
      let (r', result) = stop registry name r in (r', some (stop_reply name result))
  execute _ controller r = (r, none)

  unfoldable pub reply_to_harness :
      Address → Address → Option Harness → KameoRuntime S P → KameoRuntime S P
  unfolding send_to
  reply_to_harness me peer none r = r
  reply_to_harness me peer (some h) r = send_to me peer (harness_message h) r

  -- The branch `Inbound::Harness`.
  unfoldable pub take_harness :
      ActorKind → Address → Address → Harness → KameoRuntime S P → KameoRuntime S P
  unfolding execute reply_to_harness
  take_harness kind me peer h r =
      let (r', reply) =
        cond (is_harness kind) (execute h peer r)
          (r, some (Harness.failed (codes "not a harness actor"))) in
      reply_to_harness me peer reply r'

  unfoldable pub dispatch :
      ActorName → Entry P → Address → Inbound → KameoRuntime S P → KameoRuntime S P
  unfolding send_to take_harness
  dispatch name x origin denied r = emit_here (delivery_denied origin x.host.address) r
  dispatch name x origin (inbound_request q to peer ack) r = send_to x.host.address peer ack r
  dispatch name x origin (ack_received a) r = in_host name (take_ack net own origin a) r
  dispatch name x origin (inbound_harness h peer) r =
      take_harness x.host.kind x.host.address peer h r
  dispatch name x origin (inbound_turn t to peer ack) r =
      in_host name (take_turn net own peer t ack) r

  -- The handler of `Deliver` of the actor of that name.
  unfoldable pub deliver_to : ActorName → Delivery → KameoRuntime S P → KameoRuntime S P
  unfolding dispatch
  deliver_to name d r = elim (get ActorName-discrete name r.roster) [
    | none ↦ r
    | some x ↦ dispatch name x d.from (process x.host.allowlist d) r
  ]

  -- One turn of an actor's pump, with the handling of what it pumped, and whether it goes on.
  unfoldable pub pump : Inbox S → ActorName → KameoRuntime S P → KameoRuntime S P × Bool
  unfolding deliver_to
  pump inbox name r =
      let (w, polled) = inbox.poll_next r.world (record { endpoint = r.endpoint; name = name }) in
      let r' = record r { world = w } in
      elim polled [
        | pending ↦ (r', true)
        | ready none ↦ (r', false)
        | ready (some d) ↦ (deliver_to name d r', true)
      ]
