-- ===== src/App/Phone.antt =====
-- crates/kamiroh-app/src/phone.rs: the handle by which an application opens exchanges.
pub mod Failure
pub mod FanOut
pub mod Waits
pub mod Asking
use kamiroh.Domain.TurnState.{continuing, concluded}
use kamiroh.Domain.TurnState.{
  on_incoming as turn_in, TurnError, TurnProgress, TurnState, idle, on_outgoing, fail,
}
use kamiroh.Domain.Address.{Address, EndpointId, ActorName, EndpointId-discrete}
use kamiroh.Common.{
  Option, Bool, Result, Text, none, ℕ, List, err, false, ite, some, cond, ok, ◌+◌, leb, map, true,
}
use kamiroh.Ports.{Transport, Timer}
use kamiroh.Domain.Vocabulary.{
  Ack, Turn, Request, RequestId, open_turn, RequestId-discrete, request_of, turn_message,
}
use kamiroh.Domain.Deadline.{
  DeadlineKind, Deadlines, FailureCause, disconnected, revoked, deadline_elapsed, ack_wait,
  turn_wait,
}

pub record Phone : Type 0 where
  pub self_address : Address
  pub peer : Address
  pub deadlines : Deadlines
  pub state : TurnState
  pub ack_due : Option (RequestId × ℕ)
  pub turn_due : Option ℕ

pub data PhoneError : Type 0 where
  turn_refused : TurnError → PhoneError
  transport_failed : Text → PhoneError

unfoldable pub converse : Address → Address → Deadlines → Phone
converse me peer d = record {
  self_address = me;
  peer = peer;
  deadlines = d;
  state = idle;
  ack_due = none;
  turn_due = none;
}

-- The wait for the peer's next turn that a turn of ours creates.
abbrev pub turn_wait_of : TurnProgress → ℕ → Option ℕ
turn_wait_of continuing at = some at
turn_wait_of concluded at = none

-- The wait for the ack of a request half that was sent.
abbrev pub ack_wait_of : Option Request → ℕ → Option (RequestId × ℕ)
ack_wait_of none at = none
ack_wait_of (some q) at = some (q.id, at)

-- No wait is under way.
abbrev settled : Phone → TurnState → Phone
settled p s = record p { state = s; ack_due = none; turn_due = none }

module _ {S : Type 0} (net : Transport S) (timer : Timer S) where
  -- What `send_turn` does with the transport's answer.
  sent :
      Phone
      → Turn
      → TurnState
      → TurnProgress
      → S × Result (Unit {0}) Text
      → S × Phone × Result TurnProgress PhoneError
  sent p t s progress (w, err e) = (w, settled p (fail s).0, err (transport_failed e))
  sent p t s progress (w, ok u) = (
    w,
    record p {
      state = s;
      ack_due = ack_wait_of (request_of t) (timer.now w + p.deadlines.ack);
      turn_due = turn_wait_of progress (timer.now w + p.deadlines.turn);
    },
    ok progress,
  )

  unfoldable pub send_turn : S → Phone → Turn → S × Phone × Result TurnProgress PhoneError
  unfolding sent
  send_turn w p t =
      let (s, outcome) = on_outgoing p.state t in
      elim outcome [
        | err e ↦ (w, record p { state = s }, err (turn_refused e))
        | ok progress ↦ sent p t s progress (net.send w p.self_address p.peer (turn_message t))
      ]

  -- `Phone::open`.
  unfoldable pub open_exchange : S → Phone → Request → S × Phone × Result (Unit {0}) PhoneError
  unfolding send_turn
  open_exchange w p q =
      let (w', p', outcome) = send_turn w p (open_turn q) in
      (w', p', elim outcome [ ok progress ↦ ok tt | err e ↦ err e ])

  -- One of the phones that `open_many` returns.
  born : Address → EndpointId → Request → Deadlines → ℕ → ActorName → Phone
  unfolding converse
  born me e q d at name = record (converse me (record { endpoint = e; name = name }) d) {
    state = (on_outgoing idle (open_turn q)).0;
    ack_due = some (q.id, at + d.ack);
    turn_due = some (at + d.turn);
  }

  opened :
      Address
      → EndpointId
      → List ActorName
      → Request
      → Deadlines
      → S × Result (Unit {0}) Text
      → S × Result (List Phone) PhoneError
  unfolding born
  opened me e names q d (w, err why) = (w, err (transport_failed why))
  opened me e names q d (w, ok u) = (w, ok (map (born me e q d (timer.now w)) names))

  unfoldable pub open_many :
      S
      → Address
      → EndpointId
      → List ActorName
      → Request
      → Deadlines
      → S × Result (List Phone) PhoneError
  unfolding opened
  open_many w me e names q d = opened me e names q d (net.open_many w me e names q)

-- `Phone::on_incoming`.
unfoldable pub on_incoming : Phone → Turn → Phone × Result TurnProgress PhoneError
on_incoming p t =
    let (s, outcome) = turn_in p.state t in
    elim outcome [
      | err e ↦ (record p { state = s }, err (turn_refused e))
      | ok progress ↦ (settled p s, ok progress)
    ]

unfoldable pub note_ack : Phone → Ack → Phone × Bool
note_ack p a = elim p.ack_due [
  | none ↦ (p, false)
  | some (id, at) ↦ ite (RequestId-discrete id a.id) (record p { ack_due = none }, true) (p, false)
]

-- The `match` of `next_due` on the two waits.
abbrev earlier : Option (RequestId × ℕ) → Option ℕ → Option (DeadlineKind × ℕ)
earlier (some (id, a)) (some t) = some (cond (leb a t) (ack_wait, a) (turn_wait, t))
earlier (some (id, a)) none = some (ack_wait, a)
earlier none (some t) = some (turn_wait, t)
earlier none none = none

unfoldable pub next_due : Phone → Option (DeadlineKind × ℕ)
next_due p = earlier p.ack_due p.turn_due

unfoldable pub on_deadline_elapsed : Phone → Phone × Option FailureCause
unfolding next_due
on_deadline_elapsed p = elim (next_due p) [
  | none ↦ (p, none)
  | some (kind, at) ↦ (settled p (fail p.state).0, some (deadline_elapsed kind))
]

-- `on_peer_death` and `on_revoked` differ in the cause alone.
lose : Phone → EndpointId → FailureCause → Phone × Option FailureCause
lose p e cause =
    let (s, was_live) = fail p.state in
    ite (EndpointId-discrete p.peer.endpoint e)
      (cond was_live (settled p s, some cause) (record p { state = s }, none)) (p, none)

unfoldable pub on_peer_death : Phone → EndpointId → Phone × Option FailureCause
unfolding lose
on_peer_death p e = lose p e disconnected

unfoldable pub on_revoked : Phone → EndpointId → Phone × Option FailureCause
unfolding lose
on_revoked p e = lose p e revoked
