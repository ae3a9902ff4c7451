-- ===== src/App/Runtime/Steps.antt =====
-- crates/kamiroh-app/src/runtime.rs: a step from the inside out, and the waits of every
-- conversation.
use kamiroh.App.Runtime.Step.{
  dispatch, act, after_sweep, execute, reply_harness, step, take_ack, take_delivery, take_harness,
  wait_and_act, spawn_actor, after_death, spawned_allowlist, stop_actor, settle_ack, await_event,
}
use kamiroh.App.Runtime.Invariant.{
  >>=-Keeps, Keeps, Anything, RuntimeArmed, actor_at-Keeps, pure-Keeps, write_actor-Keeps,
  modify-AllArmed, ActorArmed, Post, settle_ack-PeerArmed,
}
use kamiroh.Common.{none, some, ok, List, Option, Result, inl, inr, codes, Option-cases}
use kamiroh.App.Runtime.{
  Ports, emit, ActorKind, LocalActor, LocalRuntime, Stepped, delivered, harness_actor, plain_actor,
  RuntimeError, ◌>>=◌, pure,
}
use kamiroh.Domain.Address.{ActorName, Address, Address-discrete, ActorName-discrete}
use kamiroh.Domain.Allowlist.{Allowlist}
use kamiroh.Domain.Vocabulary.{Ack, Harness, spawn, harness_message, stop, ping}
use kamiroh.App.Inbound.{
  Inbound, inbound_request, process, ack_received, inbound_harness, inbound_turn, denied,
}
use kamiroh.Ports.{Delivery, Poll, ready}
use kamiroh.App.Runtime.Due.{Due, earliest_due}
use kamiroh.App.Wait.{Waited, peer_death, waited_delivery, elapsed}
use kamiroh.App.Runtime.Preserved.{
  sweep_dead-Keeps, send-Keeps, fail_exchange-Keeps, take_turn-Keeps,
}
use kamiroh.Domain.Deadline.{deadline_elapsed}
use kamiroh.Common.Assoc.{modify, get, AllEntries-remove}
use kamiroh.App.Runtime.Preserved.{install_inner-Keeps, take_turn-Keeps}
use kamiroh.App.Wait.{elapsed, peer_death, waited_delivery}
use kamiroh.Ports.{pending, ready}
use kamiroh.App.Parties.{echo, new_echo}
use kamiroh.App.Runtime.Manage.{install_party}

module _ {S P : Type 0} (ports : Ports S P) where
  take_ack-Keeps :
      (name : ActorName) (peer : Address) (ack : Ack)
      → Keeps (take_ack ports name peer ack) Anything
  unfolding take_ack
  take_ack-Keeps name peer ack = >>=-Keeps (actor_at-Keeps name) (λ a k.
      >>=-Keeps
        (write_actor-Keeps name
          (record a {
            conversations = modify Address-discrete peer (settle_ack ack) a.conversations;
          })
          (modify-AllArmed peer (settle_ack ack) a.conversations (settle_ack-PeerArmed ack) k))
        (λ _ _. pure-Keeps delivered Anything tt))

  stop_actor-RuntimeArmed :
      (name : ActorName) (r : LocalRuntime S P)
      → RuntimeArmed r
      → RuntimeArmed (stop_actor ports name r).0
  unfolding stop_actor
  stop_actor-RuntimeArmed name r i = elim (Option-cases (get ActorName-discrete name r.actors)) [
    | inl e ↦ rw (e, stop_actor) i
    | inr (a, e) ↦
        rw (e, stop_actor)
          (AllEntries-remove ActorName-discrete (λ _ x. ActorArmed x) name r.actors i)
  ]

  execute-Keeps :
      (h : Harness) (peer : Address) (r : LocalRuntime S P)
      → RuntimeArmed r
      → RuntimeArmed (execute ports h peer r).0
  unfolding execute spawn_actor install_party
  execute-Keeps (ping) peer r i = i
  execute-Keeps (spawn name) peer r i =
      ((install_inner-Keeps ports name (spawned_allowlist ports peer) r.spawn_deadlines plain_actor
          (some (echo new_echo))).at
        r i).0
  execute-Keeps (stop name) peer r i = stop_actor-RuntimeArmed name r i
  execute-Keeps _ peer r i = i

  reply_harness-Keeps :
      (me peer : Address) (reply : Option Harness)
      → Keeps (reply_harness ports me peer reply) Anything
  unfolding reply_harness
  reply_harness-Keeps me peer none = pure-Keeps delivered Anything tt
  reply_harness-Keeps me peer (some h) =
      >>=-Keeps (send-Keeps ports me peer (harness_message h))
        (λ _ _. pure-Keeps delivered Anything tt)

  take_harness-Keeps :
      (kind : ActorKind) (me peer : Address) (h : Harness)
      → Keeps (take_harness ports kind me peer h) Anything
  unfolding take_harness
  take_harness-Keeps harness_actor me peer h = record {
    at = λ r i.
        (reply_harness-Keeps me peer (execute ports h peer r).1).at _ (execute-Keeps h peer r i);
  }
  take_harness-Keeps plain_actor me peer h = record {
    at = λ r i.
        (reply_harness-Keeps me peer (some (Harness.failed (codes "not a harness actor")))).at r i;
  }

  dispatch-Keeps :
      (name : ActorName) (kind : ActorKind) (me origin : Address) (x : Inbound)
      → Keeps (dispatch ports name kind me origin x) Anything
  unfolding dispatch emit
  dispatch-Keeps name kind me origin denied = record { at = λ r i. (i, tt) }
  dispatch-Keeps name kind me origin (inbound_request q to peer ack) = record {
    at = (>>=-Keeps (send-Keeps ports me peer ack) (λ _ _. pure-Keeps delivered Anything tt)).at;
  }
  dispatch-Keeps name kind me origin (ack_received ack) = record {
    at = (take_ack-Keeps name origin ack).at;
  }
  dispatch-Keeps name kind me origin (inbound_harness h peer) = record {
    at = (take_harness-Keeps kind me peer h).at;
  }
  dispatch-Keeps name kind me origin (inbound_turn t to peer ack) = record {
    at = (take_turn-Keeps ports name me peer t ack).at;
  }

  take_delivery-Keeps :
      (name : ActorName) (l : Allowlist) (kind : ActorKind) (d : Delivery)
      → Keeps (take_delivery ports name l kind d) Anything
  unfolding take_delivery
  take_delivery-Keeps name l kind d = record {
    at = λ r i. (dispatch-Keeps name kind d.to d.from (process l d)).at _ i;
  }

  act-Keeps :
      (name : ActorName) (a : LocalActor P) (due : Option Due) (x : Waited)
      → Keeps (act ports name a due x) Anything
  unfolding act
  act-Keeps name a due (peer_death e) = record {
    at = λ r i.
        (>>=-Keeps (sweep_dead-Keeps ports name)
            (λ swept _. pure-Keeps (after_death ports e swept) Anything tt)).at
          _ i;
  }
  act-Keeps name a (some (peer, kind, at)) elapsed = record {
    at = (fail_exchange-Keeps ports name peer (deadline_elapsed kind)).at;
  }
  act-Keeps name a none elapsed = record { at = λ r i. (i, tt) }
  act-Keeps name a due (waited_delivery none) = record { at = λ r i. (i, tt) }
  act-Keeps name a due (waited_delivery (some d)) = record {
    at = (take_delivery-Keeps name a.allowlist a.kind d).at;
  }

  wait_and_act-Keeps :
      (name : ActorName) (wakeups : List (S → S)) (a : LocalActor P)
      → Keeps (wait_and_act ports name wakeups a) Anything
  unfolding wait_and_act
  wait_and_act-Keeps name wakeups a = record {
    at = λ r i. waited_case r i (await_event ports name (earliest_due a) wakeups r);
  }
    where
      waited_case :
          (r : LocalRuntime S P)
          → RuntimeArmed r
          → (x : S × Poll Waited)
          → let (w, waited) = x in
            let y : LocalRuntime S P × Result (Poll Stepped) RuntimeError = elim waited [
              | pending ↦ (record r { world = w }, ok pending)
              | ready e ↦
                  (act ports name a (earliest_due a) e >>= λ stepped. pure (ready stepped))
                    (record r { world = w })
            ] in
            RuntimeArmed y.0 × Post Anything y.1
      waited_case r i (w, pending) = (i, tt)
      waited_case r i (w, ready e) =
          (>>=-Keeps (act-Keeps name a (earliest_due a) e)
              (λ stepped _. pure-Keeps (ready stepped) Anything tt)).at
            _ i

  after_sweep-Keeps :
      (name : ActorName) (wakeups : List (S → S)) (swept : Option Stepped)
      → Keeps (after_sweep ports name wakeups swept) Anything
  unfolding after_sweep
  after_sweep-Keeps name wakeups (some stepped) = pure-Keeps (ready stepped) Anything tt
  after_sweep-Keeps name wakeups none =
      >>=-Keeps (actor_at-Keeps name) (λ a _. wait_and_act-Keeps name wakeups a)

  pub step-Keeps :
      (name : ActorName) (wakeups : List (S → S)) → Keeps (step ports name wakeups) Anything
  unfolding step
  step-Keeps name wakeups =
      >>=-Keeps (sweep_dead-Keeps ports name) (λ swept _. after_sweep-Keeps name wakeups swept)
