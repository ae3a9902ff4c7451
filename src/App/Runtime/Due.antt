-- ===== src/App/Runtime/Due.antt =====
-- crates/kamiroh-app/src/runtime.rs: the earliest deadline armed for an actor.
use kamiroh.Common.{[], ◌∷◌, List, Option, cond, ltb, none, some, ℕ}
use kamiroh.Domain.Address.{Address}
use kamiroh.App.Runtime.{LocalActor, PeerState}
use kamiroh.Domain.Deadline.{DeadlineKind, turn_wait, ack_wait}
use kamiroh.Domain.Vocabulary.{RequestId}

abbrev pub Due : Type 0
Due = Address × DeadlineKind × ℕ

-- The update of `earliest`: an instant replaces the best one so far only if it is before it.
unfoldable pub better : Address → DeadlineKind → Option ℕ → Option Due → Option Due
better peer kind none best = best
better peer kind (some at) none = some (peer, kind, at)
better peer kind (some at) (some (p, k, e)) =
    cond (ltb at e) (some (peer, kind, at)) (some (p, k, e))

abbrev pub ack_instant : Option (RequestId × ℕ) → Option ℕ
ack_instant none = none
ack_instant (some (id, at)) = some at

unfoldable pub earliest_from : List (Address × PeerState) → Option Due → Option Due
unfolding better
earliest_from [] best = best
earliest_from ((peer, ps) ∷ m) best =
    earliest_from m
      (better peer turn_wait ps.turn_due (better peer ack_wait (ack_instant ps.ack_due) best))

unfoldable pub earliest_due : {P : Type 0} → LocalActor P → Option Due
unfolding earliest_from
earliest_due a = earliest_from a.conversations none
