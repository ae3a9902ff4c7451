-- ===== src/App/Runtime/Failing.antt =====
-- crates/kamiroh-app/src/runtime.rs: the exchanges of one actor that fail together, in `revoke` and
-- `sweep_dead`.
use mathlib.Core.List.{append-nil, append_assoc}
use mathlib.Core.Path.{ap, sym, refl, ◌∙◌, ◌≡◌}
use kamiroh.App.Runtime.Manage.{fail_exchange, fail_exchanges, failed_actor, tell_failed}
use kamiroh.App.Runtime.{
  LocalRuntime, LocalActor, Ports, emit, address_of, exchange_failed_step, M, write_actor, actor_at,
  ◌>>◌, ◌>>=◌, RuntimeError,
}
use kamiroh.Common.Assoc.{get, insert, get-insert, get-insert_self}
use kamiroh.Common.{
  [], ◌∷◌, some, none, ok, Option, List, ◌≡◌, ◌++◌, ite, refl, if_pos, err, if_neg, Result, subst,
}
use kamiroh.Ports.{Event, exchange_failed_event}
use kamiroh.Domain.Address.{ActorName, Address, ActorName-discrete}
use kamiroh.Domain.Deadline.{FailureCause}
use mathlib.Core.Option

-- The events of failed exchanges, in their order.
unfoldable pub failures : Address → List Address → FailureCause → List Event
failures me [] cause = []
failures me (peer ∷ peers) cause = exchange_failed_event me peer cause ∷ failures me peers cause

map_append_nil : (o : Option (List Event)) → o ≡ Option.map (λ log. log ++ []) o
map_append_nil none = refl
map_append_nil (some log) = ap some (sym (append-nil log))

map_append :
    (o : Option (List Event)) (e : Event) (es : List Event)
    → Option.map (λ log. log ++ es) (Option.map (λ log. log ++ e ∷ []) o)
      ≡ Option.map (λ log. log ++ e ∷ es) o
map_append none e es = refl
map_append (some log) e es = ap some (append_assoc log (e ∷ []) es)

one_actor :
    {P : Type 0} (name j : ActorName) (actors : List (ActorName × LocalActor P)) {a : LocalActor P}
    → get ActorName-discrete name actors ≡ some a
    → get ActorName-discrete j actors
      ≡ ite (ActorName-discrete name j) (some a) (get ActorName-discrete j actors)
one_actor name j actors h = elim (ActorName-discrete name j) [
  | yes e ↦
      rw (if_pos (ActorName-discrete name j) e)
        (ap (λ x. get ActorName-discrete x actors) (sym e) ∙ h)
  | no e ↦ rw (if_neg (ActorName-discrete name j) e) refl
]

module _ {S P : Type 0} where
  -- The rest of a do block, after its first method.
  abbrev pub and_then :
      {A B : Type 0}
      → LocalRuntime S P × Result A RuntimeError
      → (A → M S P B)
      → LocalRuntime S P × Result B RuntimeError
  and_then y f = elim y.1 [ ok a ↦ f a y.0 | err e ↦ (y.0, err e) ]

  pub and_then_ok :
      {A B : Type 0} (y : LocalRuntime S P × Result A RuntimeError) (a : A) (f : A → M S P B)
      → y.1 ≡ ok a
      → and_then y f ≡ f a y.0
  and_then_ok y a f h = rw h refl

  -- A method that first looks up an actor that is there.
  pub bind_actor_at :
      {B : Type 0} (name : ActorName) (r : LocalRuntime S P) (a : LocalActor P)
      (f : LocalActor P → M S P B)
      → get ActorName-discrete name r.actors ≡ some a
      → (actor_at name >>= f) r ≡ f a r
  bind_actor_at name r a f h = ap (λ y. and_then y f) (found h)
    where
      found : get ActorName-discrete name r.actors ≡ some a → actor_at name r ≡ (r, ok a)
      found k = rw (k, actor_at) refl

pub ite-ite : {A C : Type 0} (d : Dec A) (x y z : C) → ite d x (ite d y z) ≡ ite d x z
ite-ite (yes e) x y z = refl
ite-ite (no e) x y z = refl

module _ {S P : Type 0} (ports : Ports S P) where
  unfoldable pub failed_all : LocalActor P → List Address → FailureCause → LocalActor P
  failed_all a [] cause = a
  failed_all a (peer ∷ peers) cause = failed_all (failed_actor ports a peer cause) peers cause

  -- The runtime after the exchange with one peer has failed.
  abbrev pub after_one :
      ActorName → Address → FailureCause → LocalRuntime S P → LocalActor P → LocalRuntime S P
  after_one name peer cause r a = record r {
    actors = insert ActorName-discrete name (failed_actor ports a peer cause) r.actors;
    observer =
        Option.map (λ log. log ++ exchange_failed_event (address_of r name) peer cause ∷ [])
          r.observer;
  }

  pub fail_exchange_eq :
      (name : ActorName) (peer : Address) (cause : FailureCause) (r : LocalRuntime S P)
      {a : LocalActor P}
      → get ActorName-discrete name r.actors ≡ some a
      → fail_exchange ports name peer cause r
        ≡ (after_one name peer cause r a, ok (exchange_failed_step peer cause))
  unfolding fail_exchange tell_failed emit
  fail_exchange_eq name peer cause r {a} h =
      bind_actor_at name r a
        (λ b.
          write_actor name (failed_actor ports b peer cause) >> tell_failed ports name peer cause)
        h

  -- What the loop leaves: only the actor and the observer change.
  pub record FailedTogether (name : ActorName) (peers : List Address) (cause : FailureCause)
      (a : LocalActor P) (r r' : LocalRuntime S P) : Type 0 where
    pub world_kept : r'.world ≡ r.world
    pub dead_kept : r'.dead ≡ r.dead
    pub told :
        r'.observer ≡ Option.map (λ log. log ++ failures (address_of r name) peers cause) r.observer
    pub actors_after :
        (j : ActorName)
        → get ActorName-discrete j r'.actors
          ≡ ite
              (ActorName-discrete name j)
              (some (failed_all a peers cause))
              (get ActorName-discrete j r.actors)

  pub fail_exchanges_lem :
      (name : ActorName) (peers : List Address) (cause : FailureCause) (r : LocalRuntime S P)
      {a : LocalActor P}
      → get ActorName-discrete name r.actors ≡ some a
      → ((fail_exchanges ports name peers cause r).1 ≡ ok tt)
        × FailedTogether name peers cause a r (fail_exchanges ports name peers cause r).0
  unfolding fail_exchanges failed_all failures
  fail_exchanges_lem name [] cause r {a} h = (
    refl,
    record {
      world_kept = refl;
      dead_kept = refl;
      told = map_append_nil r.observer;
      actors_after = λ j. one_actor name j r.actors h;
    },
  )
  fail_exchanges_lem name (peer ∷ peers) cause r {a} h =
      let a' = failed_actor ports a peer cause in
      let r' = after_one name peer cause r a in
      let there = get-insert_self ActorName-discrete name a' r.actors in
      let (result, rest) = fail_exchanges_lem name peers cause r' {a = a'} there in
      subst (λ y. (y.1 ≡ ok tt) × FailedTogether name (peer ∷ peers) cause a r y.0)
        (sym (
          ap (λ y. and_then y (λ _. fail_exchanges ports name peers cause))
            (fail_exchange_eq name peer cause r h)))
        (
          result,
          record {
            world_kept = rest.world_kept;
            dead_kept = rest.dead_kept;
            told = rest.told ∙ map_append r.observer _ (failures (address_of r name) peers cause);
            actors_after = λ j.
                rest.actors_after j
                ∙ ap (ite (ActorName-discrete name j) (some (failed_all a' peers cause)))
                    (get-insert ActorName-discrete name j a' r.actors)
                ∙ ite-ite (ActorName-discrete name j) _ _ _;
          },
        )
