-- ===== src/App/Runtime/Affected.antt =====
-- crates/kamiroh-app/src/runtime.rs: which conversations `revoke` and `sweep_dead` fail.
use kamiroh.App.Runtime.Manage.{failed_actor, failed_peer, affected}
use mathlib.Core.Option.{some-injective}
use mathlib.Core.Path.{subst₂, subst, sym, refl}
use mathlib.Core.Logic.{if_pos, if_neg}
use kamiroh.App.Runtime.{LocalActor, PeerState, Ports}
use kamiroh.App.Runtime.Failing.{failed_all}
use kamiroh.App.Runtime.Invariant.{AllArmed, PeerArmed}
use kamiroh.Common.Assoc.{get, modify, get-modify, AllEntries-get}
use kamiroh.Common.Sets.{contains}
use kamiroh.Common.{
  [], ◌∷◌, some, none, Option, List, true, false, inl, inr, ◌≡◌, Bool, ap, arith, cond, refl, ◌&&◌,
  Bool-cases, Option-cases,
}
use kamiroh.Domain.TurnState.{is_live, fail}
use kamiroh.Domain.Address.{Address, EndpointId, Address-discrete}
use kamiroh.Domain.Deadline.{FailureCause}
use mathlib.Core.Option

failed_peer_twice : (ps : PeerState) → failed_peer (failed_peer ps) ≡ failed_peer ps
unfolding failed_peer fail
failed_peer_twice ps = ground arith

failed_peer_still : (ps : PeerState) → PeerArmed ps → is_live ps.state ≡ false → failed_peer ps ≡ ps
unfolding failed_peer fail is_live
failed_peer_still ps i h = ground arith

map_failed_twice :
    (o : Option PeerState)
    → Option.map failed_peer (Option.map failed_peer o) ≡ Option.map failed_peer o
map_failed_twice none = refl
map_failed_twice (some ps) = ap some (failed_peer_twice ps)

-- The conversations after the exchanges with a list of peers have failed.
unfoldable pub fail_peers : List Address → List (Address × PeerState) → List (Address × PeerState)
fail_peers [] m = m
fail_peers (p ∷ ps) m = fail_peers ps (modify Address-discrete p failed_peer m)

get-fail_peers :
    (peer : Address) (ps : List Address) (m : List (Address × PeerState))
    → get Address-discrete peer (fail_peers ps m)
      ≡ cond
          (contains Address-discrete peer ps)
          (Option.map failed_peer (get Address-discrete peer m))
          (get Address-discrete peer m)
unfolding fail_peers contains
get-fail_peers peer [] m = refl
get-fail_peers peer (p ∷ ps) m = ground (
  arith,
  get-fail_peers peer ps (modify Address-discrete p failed_peer m),
  get-modify Address-discrete p peer failed_peer m,
  map_failed_twice (get Address-discrete peer m),
)

module _ {S P : Type 0} (ports : Ports S P) where
  pub conversations-failed_all :
      (a : LocalActor P) (ps : List Address) (cause : FailureCause)
      → (failed_all ports a ps cause).conversations ≡ fail_peers ps a.conversations
  unfolding failed_all fail_peers failed_actor
  conversations-failed_all a [] cause = refl
  conversations-failed_all a (p ∷ ps) cause =
      conversations-failed_all (failed_actor ports a p cause) ps cause

  pub allowlist-failed_all :
      (a : LocalActor P) (ps : List Address) (cause : FailureCause)
      → (failed_all ports a ps cause).allowlist ≡ a.allowlist
  unfolding failed_all failed_actor
  allowlist-failed_all a [] cause = refl
  allowlist-failed_all a (p ∷ ps) cause =
      allowlist-failed_all (failed_actor ports a p cause) ps cause

module _ (hit : EndpointId → Bool) where
  affected-live :
      (peer : Address) (m : List (Address × PeerState)) {ps : PeerState}
      → get Address-discrete peer m ≡ some ps
      → is_live ps.state && hit peer.endpoint ≡ true
      → contains Address-discrete peer (affected hit m) ≡ true
  unfolding affected get contains
  affected-live peer [] h k = ground arith
  affected-live peer ((p, q) ∷ m) {ps} h k = elim (Address-discrete p peer) [
    | yes e ↦
        let head : q ≡ ps =
          some-injective q ps
            (rw (if_pos (Address-discrete p peer) e (some q) (get Address-discrete peer m)) at h) in
        let chosen : is_live q.state && hit p.endpoint ≡ true =
          subst₂ (λ (x : PeerState) (y : Address). is_live x.state && hit y.endpoint ≡ true)
            (sym head) (sym e) k in
        rw (chosen, if_pos (Address-discrete p peer) e) refl
    | no e ↦
        let rest =
          affected-live peer m
            (rw (if_neg (Address-discrete p peer) e (some q) (get Address-discrete peer m)) at h)
            k in
        elim (Bool-cases (is_live q.state && hit p.endpoint)) [
          | inl c ↦ rw (c, if_neg (Address-discrete p peer) e) rest
          | inr c ↦ rw c rest
        ]
  ]

  affected-missed :
      (peer : Address) (m : List (Address × PeerState))
      → hit peer.endpoint ≡ false
      → contains Address-discrete peer (affected hit m) ≡ false
  unfolding affected contains
  affected-missed peer [] h = refl
  affected-missed peer ((p, q) ∷ m) h =
      let rest = affected-missed peer m h in
      elim (Bool-cases (is_live q.state && hit p.endpoint)) [
        | inr c ↦ rw c rest
        | inl c ↦ elim (Address-discrete p peer) [
          | no e ↦ rw (c, if_neg (Address-discrete p peer) e) rest
          | yes e ↦
              let missed : hit p.endpoint ≡ false = subst (λ x. hit x.endpoint ≡ false) (sym e) h in
              grind arith
        ]
      ]

  -- One conversation after all that a test selects have failed.
  abbrev pub failed_if : Address → PeerState → PeerState
  failed_if peer ps = cond (is_live ps.state && hit peer.endpoint) (failed_peer ps) ps

  cond_same : (b : Bool) → cond b (Option.map failed_peer none) none ≡ none
  cond_same true = refl
  cond_same false = refl

  one_affected :
      (peer : Address) (ps : PeerState) (b : Bool)
      → PeerArmed ps
      → (is_live ps.state && hit peer.endpoint ≡ true → b ≡ true)
      → (hit peer.endpoint ≡ false → b ≡ false)
      → cond b (some (failed_peer ps)) (some ps) ≡ some (failed_if peer ps)
  one_affected peer ps b i live missed = let still = failed_peer_still ps i in ground arith

  pub get-fail_affected :
      (peer : Address) (m : List (Address × PeerState))
      → AllArmed m
      → get Address-discrete peer (fail_peers (affected hit m) m)
        ≡ Option.map (failed_if peer) (get Address-discrete peer m)
  get-fail_affected peer m i = elim (Option-cases (get Address-discrete peer m)) [
    | inl e ↦
        rw (get-fail_peers peer (affected hit m) m, e)
          (cond_same (contains Address-discrete peer (affected hit m)))
    | inr (ps, e) ↦
        let armed = AllEntries-get Address-discrete (λ _ x. PeerArmed x) peer m i e in
        rw (get-fail_peers peer (affected hit m) m, e)
          (one_affected peer ps (contains Address-discrete peer (affected hit m)) armed
            (affected-live peer m e) (affected-missed peer m))
  ]
