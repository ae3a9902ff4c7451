-- ===== src/App/Runtime/Manage.antt =====
-- crates/kamiroh-app/src/runtime.rs: installing actors, changing their allowlists, and the one
-- path by which an exchange fails.
use mathlib.Core.Option.{map as map_option}
use kamiroh.Domain.Allowlist.{admit as admit_endpoint, revoke as revoke_endpoint, Allowlist}
use kamiroh.Common.Sets.{contains}
use kamiroh.Domain.Deadline.{revoked, disconnected, Deadlines, FailureCause}
use kamiroh.Domain.TurnState.{fail, is_live}
use kamiroh.App.Runtime.{
  ◌>>=◌, ◌>>◌, PeerState, Ports, LocalActor, M, actor_at, ActorKind, Stepped, pure, write_actor,
  emit, plain_actor, address_of, name_in_use, peer_vanished, bind_failed, exchange_failed_step,
  unknown_actor,
}
use kamiroh.Common.Assoc.{insert, contains_key, modify, get}
use kamiroh.Common.{
  [], ◌∷◌, cond, same, ◌&&◌, keep, length, none, some, ok, err, Bool, List, Option, ℕ,
}
use kamiroh.Domain.Address.{
  Address-discrete, EndpointId-discrete, EndpointId, ActorName, Address, ActorName-discrete,
}
use kamiroh.App.Parties.{on_exchange_failed_boxed, DynParty}
use kamiroh.Ports.{exchange_failed_event}

-- The peers of live exchanges that a test of their endpoint selects.
unfoldable pub affected : (EndpointId → Bool) → List (Address × PeerState) → List Address
unfolding is_live
affected hit [] = []
affected hit ((peer, ps) ∷ m) =
    cond (is_live ps.state && hit peer.endpoint) (peer ∷ affected hit m) (affected hit m)

-- A conversation whose exchange has failed.
unfoldable pub failed_peer : PeerState → PeerState
failed_peer ps = record { state = (fail ps.state).0; ack_due = none; turn_due = none }

module _ {S P : Type 0} (ports : Ports S P) where
  unfoldable pub install_inner :
      ActorName → Allowlist → Deadlines → ActorKind → Option (DynParty P) → M S P (Unit {0})
  install_inner name allowlist deadlines kind party r =
      cond (contains_key ActorName-discrete name r.actors) (r, err name_in_use)
        (let (w, bound) = ports.registry.bind r.world (address_of r name) in
          elim bound [
            | err e ↦ (record r { world = w }, err (bind_failed e))
            | ok u ↦ (
              record r {
                world = w;
                actors =
                    insert ActorName-discrete name
                      (record {
                        allowlist = allowlist;
                        kind = kind;
                        deadlines = deadlines;
                        party = party;
                        conversations = [];
                      })
                      r.actors;
              },
              ok tt,
            )
          ])

  unfoldable pub install : ActorName → Allowlist → Deadlines → ActorKind → M S P (Unit {0})
  unfolding install_inner
  install name allowlist deadlines kind = install_inner name allowlist deadlines kind none

  unfoldable pub install_party : ActorName → Allowlist → Deadlines → DynParty P → M S P (Unit {0})
  unfolding install_inner
  install_party name allowlist deadlines party =
      install_inner name allowlist deadlines plain_actor (some party)

  unfoldable pub admit : ActorName → EndpointId → M S P (Unit {0})
  admit name e = do
    a ← actor_at name
    write_actor name (record a { allowlist = admit_endpoint a.allowlist e })

  -- The actor after one of its exchanges has failed: its machine and its waits, and its party.
  unfoldable pub failed_actor : LocalActor P → Address → FailureCause → LocalActor P
  unfolding failed_peer
  failed_actor a peer cause = record a {
    conversations = modify Address-discrete peer failed_peer a.conversations;
    party = map_option (λ p. on_exchange_failed_boxed ports.own p peer cause) a.party;
  }

  -- The event and the result of a failed exchange.
  unfoldable pub tell_failed : ActorName → Address → FailureCause → M S P Stepped
  tell_failed name peer cause r = (
    emit (exchange_failed_event (address_of r name) peer cause) r,
    ok (exchange_failed_step peer cause),
  )

  unfoldable pub fail_exchange : ActorName → Address → FailureCause → M S P Stepped
  unfolding failed_actor tell_failed
  fail_exchange name peer cause = do
    a ← actor_at name
    write_actor name (failed_actor a peer cause)
    tell_failed name peer cause

  -- The loops of `revoke` and `sweep_dead`.
  unfoldable pub fail_exchanges : ActorName → List Address → FailureCause → M S P (Unit {0})
  fail_exchanges name [] cause = pure tt
  fail_exchanges name (peer ∷ peers) cause =
      fail_exchange name peer cause >> fail_exchanges name peers cause

  unfoldable pub revoke : ActorName → EndpointId → M S P ℕ
  revoke name e = do
    a ← actor_at name
    let peers = affected (λ x. same EndpointId-discrete x e) a.conversations
    write_actor name (record a { allowlist = revoke_endpoint a.allowlist e })
    fail_exchanges name peers revoked
    pure (length peers)

  -- `sweep_dead` after its search: the peers at the first affected endpoint fail.
  unfoldable pub sweep : ActorName → List Address → M S P (Option Stepped)
  sweep name [] = pure none
  sweep name (first ∷ rest) =
      let peers = keep (λ x. same EndpointId-discrete x.endpoint first.endpoint) (first ∷ rest) in
      fail_exchanges name peers disconnected
      >> pure (some (peer_vanished first.endpoint (length peers)))

  unfoldable pub sweep_dead : ActorName → M S P (Option Stepped)
  sweep_dead name r = elim (get ActorName-discrete name r.actors) [
    | none ↦ (r, err unknown_actor)
    | some a ↦ sweep name (affected (λ x. contains EndpointId-discrete x r.dead) a.conversations) r
  ]
