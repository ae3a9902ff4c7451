-- ===== src/Kameo/Dying.antt =====
-- crates/kamiroh-adapter-kameo/src/lib.rs: what a death leaves of a host's exchanges.
use kamiroh.Common.{
  sym, refl, subst, [], ◌∷◌, inl, inr, true, false, List, Bool, Bool-cases, arith, ite, ◌≡◌, same,
  ◌&&◌, if_neg, if_pos, ◌∙◌,
}
use kamiroh.Common.Assoc.{AllEntries, AllEntries-modify}
use kamiroh.Common.Sets.{contains}
use kamiroh.Kameo.Host.{
  PeerWaits, Hosted, affected, fail_exchange, fail_exchanges, failed_waits, peer_died, emit,
  settle_all,
}
use kamiroh.Domain.Address.{EndpointId, Address, Address-discrete, EndpointId-discrete}
use kamiroh.Domain.TurnState.{fail, is_live}
use kamiroh.Ports.{Party}
use kamiroh.Domain.Deadline.{FailureCause, disconnected}

-- Whether a conversation is live, with a peer at the endpoint.
abbrev is_affected : EndpointId → Address → PeerWaits → Bool
is_affected e peer ws = same EndpointId-discrete peer.endpoint e && is_live ws.state

abbrev IsListed : EndpointId → List Address → Address → PeerWaits → Type 0
IsListed e peers peer ws =
    is_affected e peer ws ≡ true → contains Address-discrete peer peers ≡ true

failed_waits_dead :
    (e : EndpointId) (peer : Address) (ws : PeerWaits)
    → is_affected e peer (failed_waits ws) ≡ false
unfolding failed_waits settle_all fail is_live
failed_waits_dead e peer ws = ground arith

-- A failed peer is struck off the list.
struck :
    (e : EndpointId) (first : Address) (peers : List Address) (peer : Address) (ws : PeerWaits)
    → IsListed e (first ∷ peers) peer ws
    → IsListed e peers peer (ite (Address-discrete peer first) (failed_waits ws) ws)
unfolding contains
struck e first peers peer ws h live = elim (Address-discrete peer first) [
  | yes p ↦
      let dead = rw (if_pos (Address-discrete peer first) p (failed_waits ws) ws) at live in
      absurd (ground (arith, failed_waits_dead e peer ws, dead))
  | no p ↦
      let alive = rw (if_neg (Address-discrete peer first) p (failed_waits ws) ws) at live in
      rw
        (if_neg (Address-discrete first peer) (λ q. p (sym q)) true
          (contains Address-discrete peer peers))
        at (h alive)
]

weaker :
    (e : EndpointId) (first : Address) (peers : List Address) (m : List (Address × PeerWaits))
    → AllEntries (IsListed e peers) m
    → AllEntries (IsListed e (first ∷ peers)) m
unfolding contains
weaker e first peers [] h = tt
weaker e first peers ((peer, ws) ∷ m) h =
    (λ live. ground (arith, h.0 live), weaker e first peers m h.1)

affected_first :
    (e : EndpointId) (peer : Address) (ws : PeerWaits) (m : List (Address × PeerWaits))
    → is_affected e peer ws ≡ true
    → affected e ((peer, ws) ∷ m) ≡ peer ∷ affected e m
unfolding affected
affected_first e peer ws m p = rw p refl

affected_rest :
    (e : EndpointId) (peer : Address) (ws : PeerWaits) (m : List (Address × PeerWaits))
    → is_affected e peer ws ≡ false
    → affected e ((peer, ws) ∷ m) ≡ affected e m
unfolding affected
affected_rest e peer ws m p = rw p refl

affected-IsListed :
    (e : EndpointId) (m : List (Address × PeerWaits)) → AllEntries (IsListed e (affected e m)) m
unfolding affected contains
affected-IsListed e [] = tt
affected-IsListed e ((peer, ws) ∷ m) =
    let rest = affected-IsListed e m in
    let Listed : List Address → Type 0 = λ l. AllEntries (IsListed e l) ((peer, ws) ∷ m) in
    elim (Bool-cases (is_affected e peer ws)) [
      | inl p ↦ subst Listed (sym (affected_first e peer ws m p)) (
        λ _. if_pos (Address-discrete peer peer) refl true _,
        weaker e peer (affected e m) m rest,
      )
      | inr p ↦
          subst Listed (sym (affected_rest e peer ws m p))
            (λ live. absurd (ground (arith, p, live)), rest)
    ]

none_listed :
    (e : EndpointId) (m : List (Address × PeerWaits))
    → AllEntries (IsListed e []) m
    → affected e m ≡ []
unfolding affected contains
none_listed e [] h = refl
none_listed e ((peer, ws) ∷ m) h = elim (Bool-cases (is_affected e peer ws)) [
  | inl p ↦ absurd (ground (arith, h.0 p))
  | inr p ↦ affected_rest e peer ws m p ∙ none_listed e m h.1
]

module _ {S P : Type 0} (own : Party P) where
  fail_exchange-IsListed :
      (e : EndpointId) (first : Address) (peers : List Address) (cause : FailureCause)
      (h : Hosted S P)
      → AllEntries (IsListed e (first ∷ peers)) h.host.conversations
      → AllEntries (IsListed e peers) (fail_exchange own first cause h).host.conversations
  unfolding fail_exchange emit
  fail_exchange-IsListed e first peers cause h listed =
      AllEntries-modify Address-discrete (IsListed e (first ∷ peers)) (IsListed e peers) first
        failed_waits h.host.conversations (struck e first peers) listed

  fail_exchanges-none :
      (e : EndpointId) (peers : List Address) (cause : FailureCause) (h : Hosted S P)
      → AllEntries (IsListed e peers) h.host.conversations
      → affected e (fail_exchanges own peers cause h).host.conversations ≡ []
  unfolding fail_exchanges
  fail_exchanges-none e [] cause h listed = none_listed e h.host.conversations listed
  fail_exchanges-none e (first ∷ peers) cause h listed =
      fail_exchanges-none e peers cause (fail_exchange own first cause h)
        (fail_exchange-IsListed e first peers cause h listed)

  -- After a host has heard of a death, or has revoked an endpoint, it has no live exchange with it.
  pub peer_died-affected :
      (e : EndpointId) (h : Hosted S P) → affected e (peer_died own e h).host.conversations ≡ []
  unfolding peer_died
  peer_died-affected e h =
      fail_exchanges-none e (affected e h.host.conversations) disconnected h
        (affected-IsListed e h.host.conversations)
