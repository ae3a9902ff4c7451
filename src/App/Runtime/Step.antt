-- ===== src/App/Runtime/Step.antt =====
-- crates/kamiroh-app/src/runtime.rs: one event of an actor, waited for and acted on.
use kamiroh.Domain.Allowlist.{admit, empty, Allowlist}
use kamiroh.Common.Sets.{insert as insert_endpoint, remove as remove_endpoint}
use kamiroh.Domain.Vocabulary.{
  spawn, spawned, stop, stopped, ping, pong, Ack, Harness, harness_message, RequestId-discrete,
}
use kamiroh.Common.Assoc.{get, remove, modify}
use kamiroh.App.Runtime.{
  ◌>>=◌, ◌>>◌, ActorKind, Ports, PeerState, LocalActor, LocalRuntime, M, Stepped, actor_at,
  delivered, emit, peer_vanished, pure, address_of, harness_actor, write_actor, plain_actor,
  error_text, inbox_closed,
}
use kamiroh.App.Inbound.{
  denied, Inbound, process, inbound_request, ack_received, inbound_harness, inbound_turn,
}
use kamiroh.App.Runtime.Turns.{send, take_turn}
use kamiroh.App.Runtime.Due.{Due, earliest_due}
use kamiroh.App.Runtime.Manage.{install_party, sweep_dead, fail_exchange}
use kamiroh.Common.{cond, none, ite, some, ok, err, true, false, Bool, Option, List, ℕ, codes}
use kamiroh.Ports.{ready, pending, Delivery, Poll, delivery_denied, ready}
use kamiroh.App.Wait.{
  Waited, peer_death, next_or_deadline_or_death, next_timed, waited_delivery, elapsed,
}
use kamiroh.App.Parties.{echo, new_echo}
use kamiroh.Domain.Address.{
  Address-discrete, EndpointId-discrete, ActorName, Address, EndpointId, ActorName-discrete,
}
use kamiroh.Domain.Deadline.{deadline_elapsed}

abbrev pub is_harness : ActorKind → Bool
is_harness harness_actor = true
is_harness plain_actor = false

-- A delivery ack settles the wait that it answers.
unfoldable pub settle_ack : Ack → PeerState → PeerState
settle_ack a ps = elim ps.ack_due [
  | none ↦ ps
  | some (id, at) ↦ ite (RequestId-discrete id a.id) (record ps { ack_due = none }) ps
]

module _ {S P : Type 0} (ports : Ports S P) where
  unfoldable pub spawned_allowlist : Address → Allowlist
  spawned_allowlist controller = admit empty controller.endpoint

  unfoldable pub spawn_actor : ActorName → Address → LocalRuntime S P → LocalRuntime S P × Harness
  unfolding spawned_allowlist
  spawn_actor name controller r =
      let (r', result) =
        install_party ports name (spawned_allowlist controller) r.spawn_deadlines (echo new_echo)
          r in
      (r', elim result [ ok u ↦ spawned name | err e ↦ Harness.failed (error_text e) ])

  -- Dropping the removed actor drops its inbox, which unbinds its address.
  unfoldable pub stop_actor : ActorName → LocalRuntime S P → LocalRuntime S P × Harness
  stop_actor name r = elim (get ActorName-discrete name r.actors) [
    | none ↦ (r, Harness.failed (codes "no such actor"))
    | some a ↦ (
      record r {
        actors = remove ActorName-discrete name r.actors;
        world = ports.registry.unbind r.world (address_of r name);
      },
      stopped name,
    )
  ]

  unfoldable pub execute : Harness → Address → LocalRuntime S P → LocalRuntime S P × Option Harness
  unfolding spawn_actor stop_actor
  execute ping controller r = (r, some pong)
  execute (spawn name) controller r =
      let (r', reply) = spawn_actor name controller r in (r', some reply)
  execute (stop name) controller r = let (r', reply) = stop_actor name r in (r', some reply)
  execute _ controller r = (r, none)

  unfoldable pub reply_harness : Address → Address → Option Harness → M S P Stepped
  reply_harness me peer none = pure delivered
  reply_harness me peer (some h) = send ports me peer (harness_message h) >> pure delivered

  -- The branch `Inbound::Harness` of `step`.
  unfoldable pub take_harness : ActorKind → Address → Address → Harness → M S P Stepped
  unfolding reply_harness
  take_harness kind me peer h r =
      cond (is_harness kind) (let (r', reply) = execute h peer r in reply_harness me peer reply r')
        (reply_harness me peer (some (Harness.failed (codes "not a harness actor"))) r)

  -- The branch `Inbound::AckReceived` of `step`.
  unfoldable pub take_ack : ActorName → Address → Ack → M S P Stepped
  take_ack name peer ack = do
    a ← actor_at name
    write_actor name
        (record a { conversations = modify Address-discrete peer (settle_ack ack) a.conversations })
    pure delivered

  unfoldable pub dispatch : ActorName → ActorKind → Address → Address → Inbound → M S P Stepped
  dispatch name kind me origin denied r = (emit (delivery_denied origin me) r, ok delivered)
  dispatch name kind me origin (inbound_request q to peer ack) r =
      (send ports me peer ack >> pure delivered) r
  dispatch name kind me origin (ack_received ack) r = take_ack name origin ack r
  dispatch name kind me origin (inbound_harness h peer) r = take_harness kind me peer h r
  dispatch name kind me origin (inbound_turn t to peer ack) r = take_turn ports name me peer t ack r

  -- A delivery: its origin is alive, and the allowlist decides.
  unfoldable pub take_delivery : ActorName → Allowlist → ActorKind → Delivery → M S P Stepped
  unfolding dispatch
  take_delivery name allowlist kind d r =
      dispatch name kind d.to d.from (process allowlist d)
        (record r { dead = remove_endpoint EndpointId-discrete d.from.endpoint r.dead })

  unfoldable pub after_death : EndpointId → Option Stepped → Stepped
  after_death e none = peer_vanished e 0
  after_death e (some stepped) = stepped

  -- What the wait produced. The source's `expect` on a deadline that is due is, without one,
  -- the error of the third clause.
  unfoldable pub act : ActorName → LocalActor P → Option Due → Waited → M S P Stepped
  unfolding after_death
  act name a due (peer_death e) r =
      (sweep_dead ports name >>= λ swept. pure (after_death e swept))
        (record r { dead = insert_endpoint EndpointId-discrete e r.dead })
  act name a (some (peer, kind, at)) elapsed r =
      fail_exchange ports name peer (deadline_elapsed kind) r
  act name a none elapsed r = (r, err inbox_closed)
  act name a due (waited_delivery none) r = (r, err inbox_closed)
  act name a due (waited_delivery (some d)) r = take_delivery name a.allowlist a.kind d r

  abbrev pub due_instant : Option Due → Option ℕ
  due_instant none = none
  due_instant (some (peer, kind, at)) = some at

  -- The race of the step, with the death watch or without.
  unfoldable pub await_event :
      ActorName → Option Due → List (S → S) → LocalRuntime S P → S × Poll Waited
  await_event name due wakeups r =
      let me = address_of r name in
      cond r.death_watch
        (next_or_deadline_or_death ports.inbox ports.timer ports.deaths me (due_instant due) true
          wakeups r.world)
        (next_timed ports.inbox ports.timer me (due_instant due) wakeups r.world)

  -- `pending` while the wait has not ended.
  unfoldable pub wait_and_act : ActorName → List (S → S) → LocalActor P → M S P (Poll Stepped)
  unfolding await_event
  wait_and_act name wakeups a r =
      let due = earliest_due a in
      let (w, waited) = await_event name due wakeups r in
      elim waited [
        | pending ↦ (record r { world = w }, ok pending)
        | ready e ↦ (act name a due e >>= λ stepped. pure (ready stepped)) (record r { world = w })
      ]

  -- A dead endpoint with live exchanges ends the step before any waiting.
  unfoldable pub after_sweep : ActorName → List (S → S) → Option Stepped → M S P (Poll Stepped)
  after_sweep name wakeups (some stepped) = pure (ready stepped)
  after_sweep name wakeups none = actor_at name >>= wait_and_act name wakeups

  unfoldable pub step : ActorName → List (S → S) → M S P (Poll Stepped)
  step name wakeups = sweep_dead ports name >>= after_sweep name wakeups
