-- ===== src/App/Phone/Failure.antt =====
-- crates/kamiroh-app/src/phone.rs: refused sends, elapsed deadlines and lost peers.
use kamiroh.Domain.TurnState.{
  continuing, awaiting_their_turn, failed, fail, on_outgoing, is_live, TurnState, TurnProgress,
}
use kamiroh.Common.{none, some, ok, err, false, ℕ, Option, ◌≡◌, ◌≤◌, arith, Text, cond, same, ◌&&◌}
use kamiroh.Domain.Deadline.{
  DeadlineKind, ack_wait, deadline_elapsed, disconnected, turn_wait, revoked, FailureCause,
}
use kamiroh.App.Phone.{
  next_due, on_deadline_elapsed, on_peer_death, Phone, on_revoked, send_turn, transport_failed,
  continuing,
}
use kamiroh.Ports.{Transport, Timer}
use kamiroh.Domain.Vocabulary.{RequestId, Turn, Request, turn_message, open_turn}
use kamiroh.Domain.Address.{EndpointId, EndpointId-discrete}

-- An instant is not after an armed wait.
abbrev NotAfterAck : ℕ → Option (RequestId × ℕ) → Type 0
NotAfterAck at none = Unit
NotAfterAck at (some (id, a)) = at ≤ a

abbrev NotAfterTurn : ℕ → Option ℕ → Type 0
NotAfterTurn at none = Unit
NotAfterTurn at (some t) = at ≤ t

-- The instant is that of the wait of its kind.
abbrev ack_at : Option (RequestId × ℕ) → Option ℕ
ack_at none = none
ack_at (some (id, a)) = some a

abbrev IsInstantOf : DeadlineKind → ℕ → Phone → Type 0
IsInstantOf ack_wait at p = ack_at p.ack_due ≡ some at
IsInstantOf turn_wait at p = p.turn_due ≡ some at

-- The pending deadline is the instant of one of the armed waits, and no armed wait ends before it.
pub next_due_earliest :
    (p : Phone) {kind : DeadlineKind} {at : ℕ}
    → next_due p ≡ some (kind, at)
    → IsInstantOf kind at p × NotAfterAck at p.ack_due × NotAfterTurn at p.turn_due
unfolding next_due
next_due_earliest p h = ground arith

-- When the pending deadline elapses while the peer's turn is awaited, the cause names its kind,
-- the exchange is failed and no wait is left.
pub on_deadline_elapsed_lem :
    (p : Phone) (kind : DeadlineKind) (at : ℕ) (o : RequestId)
    → next_due p ≡ some (kind, at)
    → p.state ≡ awaiting_their_turn o
    → on_deadline_elapsed p
      ≡ (record p { state = failed; ack_due = none; turn_due = none }, some (deadline_elapsed kind))
unfolding on_deadline_elapsed fail
on_deadline_elapsed_lem p kind at o h k = ground arith

module _ {S : Type 0} (net : Transport S) (timer : Timer S) where
  -- A legal turn whose send the transport refuses leaves no live exchange and no wait, its error
  -- is returned, and a fresh `Open` is legal at once.
  pub send_turn_refused :
      (w : S) (p : Phone) (t : Turn) (q : Request) {s : TurnState} {progress : TurnProgress}
      {why : Text}
      → on_outgoing p.state t ≡ (s, ok progress)
      → (net.send w p.self_address p.peer (turn_message t)).1 ≡ err why
      → let (w', p', result) = send_turn net timer w p t in
        (result ≡ err (transport_failed why))
        × (is_live p'.state ≡ false)
        × (p'.ack_due ≡ none)
        × (p'.turn_due ≡ none)
        × ((on_outgoing p'.state (open_turn q)).1 ≡ ok continuing)
  unfolding send_turn on_outgoing fail is_live
  send_turn_refused w p t q h k = ground arith

-- A report about an endpoint, a death or a revocation, touches the phone exactly when that is the
-- peer's endpoint and an exchange is live: then the exchange is failed, with no wait left and the
-- cause returned.
pub on_peer_death-on_revoked :
    (p : Phone) (e : EndpointId)
    → let dead : Phone = record p { state = failed; ack_due = none; turn_due = none } in
      let told : FailureCause → Phone × Option FailureCause = λ cause.
        cond
          (same EndpointId-discrete p.peer.endpoint e && is_live p.state)
          (dead, some cause)
          (p, none) in
      (on_peer_death p e ≡ told disconnected) × (on_revoked p e ≡ told revoked)
unfolding on_peer_death on_revoked fail is_live
on_peer_death-on_revoked p e = (ground arith, ground arith)
