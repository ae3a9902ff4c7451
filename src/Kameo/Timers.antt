-- ===== src/Kameo/Timers.antt =====
-- crates/kamiroh-adapter-kameo/src/lib.rs: turns and acks of the peers, and the reports of timers.
use kamiroh.Kameo.Host.{
  PeerWaits, Report, Hosted, no_waits, next_epoch, settle_ack, settle_all, emit, fail_exchange,
}
use kamiroh.App.Parties.{on_turn_boxed, entry_or, put}
use kamiroh.Common.Assoc.{get, modify}
use kamiroh.Common.{
  [], ◌∷◌, none, some, ok, err, true, false, ℕ, Bool, Option, List, ite, cond, ◌&&◌, ◌++◌, same,
  ℕ_discrete,
}
use kamiroh.Domain.Address.{Address, Address-discrete}
use kamiroh.Domain.Deadline.{ack_wait, turn_wait, deadline_elapsed, send_failed, illegal_reply}
use kamiroh.Domain.TurnState.{on_incoming, on_outgoing, TurnProgress, continuing, concluded}
use kamiroh.Domain.Vocabulary.{
  Ack, Turn, Message, RequestId, RequestId-discrete, request_of, turn_message,
}
use kamiroh.Ports.{Transport, Party, illegal_turn_dropped}

-- The tasks that a reply arms: for the ack of its request half, and for the peer's next turn.
unfoldable pub ack_task : Address → ℕ → Option RequestId → List Report
ack_task peer epoch none = []
ack_task peer epoch (some id) =
    record { peer = peer; kind = ack_wait; ack_id = some id; epoch = epoch } ∷ []

unfoldable pub turn_task : Address → ℕ → TurnProgress → List Report
turn_task peer epoch continuing =
    record { peer = peer; kind = turn_wait; ack_id = none; epoch = epoch } ∷ []
turn_task peer epoch concluded = []

abbrev pub is_continuing : TurnProgress → Bool
is_continuing continuing = true
is_continuing concluded = false

-- A request half replaces the ack that is waited for; a reply without one leaves it.
abbrev pub ack_armed : Option RequestId → Option RequestId → Option RequestId
ack_armed none before = before
ack_armed (some id) before = some id

abbrev pub id_posed : Turn → Option RequestId
id_posed t = elim (request_of t) [ none ↦ none | some q ↦ some q.id ]

module _ {S P : Type 0} (net : Transport S) (own : Party P) where
  abbrev pub waits_of : Hosted S P → Address → PeerWaits
  waits_of h peer = entry_or peer no_waits h.host.conversations

  abbrev pub with_waits : Address → PeerWaits → Hosted S P → Hosted S P
  with_waits peer ws h = record h {
    host = record h.host { conversations = put peer ws h.host.conversations };
  }

  unfoldable pub arm : Address → Option RequestId → TurnProgress → Hosted S P → Hosted S P
  unfolding next_epoch ack_task turn_task
  arm peer posed progress h =
      let ws = waits_of h peer in
      let epoch = next_epoch ws.epoch in
      record (with_waits peer
        (record ws { epoch = epoch; ack = ack_armed posed ws.ack; turn = is_continuing progress })
        h) { tasks = (h.tasks ++ ack_task peer epoch posed) ++ turn_task peer epoch progress }

  -- The reply goes out and arms its waits, or its exchange fails.
  unfoldable pub send_reply : Address → Turn → TurnProgress → Hosted S P → Hosted S P
  unfolding arm
  send_reply peer t progress h =
      let (w, answer) = net.send h.world h.host.address peer (turn_message t) in
      elim answer [
        | ok u ↦ arm peer (id_posed t) progress (record h { world = w })
        | err e ↦ fail_exchange own peer send_failed (record h { world = w })
      ]

  unfoldable pub answer_with : Address → Option Turn → Hosted S P → Hosted S P
  unfolding send_reply
  answer_with peer none h = h
  answer_with peer (some t) h =
      let ws = waits_of h peer in
      let (s, outcome) = on_outgoing ws.state t in
      let h' = with_waits peer (record ws { state = s }) h in
      elim outcome [
        | err e ↦ fail_exchange own peer illegal_reply h'
        | ok progress ↦ send_reply peer t progress h'
      ]

  unfoldable pub ask_party : Address → Turn → Hosted S P → Hosted S P × Option Turn
  ask_party peer t h = elim h.host.party [
    | none ↦ (h, none)
    | some p ↦
        let (p', reply) = on_turn_boxed own p peer t in
        (record h { host = record h.host { party = some p' } }, reply)
  ]

  -- A refused ack is ignored.
  unfoldable pub send_ack : Address → Option Message → Hosted S P → Hosted S P
  send_ack peer none h = h
  send_ack peer (some ack) h = record h { world = (net.send h.world h.host.address peer ack).0 }

  -- The branch `Inbound::Turn` of `Deliver`.
  unfoldable pub take_turn : Address → Turn → Option Message → Hosted S P → Hosted S P
  unfolding answer_with ask_party send_ack
  take_turn peer t ack h =
      let ws = waits_of h peer in
      let (s, outcome) = on_incoming ws.state t in
      elim outcome [
        | err e ↦
            emit own (illegal_turn_dropped peer h.host.address e)
              (with_waits peer (record ws { state = s }) h)
        | ok progress ↦
            let heard =
              send_ack peer ack (with_waits peer (settle_all (record ws { state = s })) h) in
            let (h', reply) = ask_party peer t heard in answer_with peer reply h'
      ]

  -- The branch `Inbound::AckReceived` of `Deliver`.
  unfoldable pub take_ack : Address → Ack → Hosted S P → Hosted S P
  take_ack peer ack h = record h {
    host = record h.host {
      conversations = modify Address-discrete peer (settle_ack ack.id) h.host.conversations;
    };
  }

-- The wait that a report claims to end is still pending.
abbrev pub pending_wait : Report → PeerWaits → Bool
pending_wait x ws = elim x.kind [
  | ack_wait ↦ elim x.ack_id [
    | none ↦ false
    | some id ↦ elim ws.ack [ none ↦ false | some due ↦ ite (RequestId-discrete due id) true false ]
  ]
  | turn_wait ↦ ws.turn
]

unfoldable pub still_pending : Report → PeerWaits → Bool
still_pending x ws = same ℕ_discrete x.epoch ws.epoch && pending_wait x ws

module _ {S P : Type 0} (own : Party P) where
  -- The handler of `DeadlineElapsed`.
  unfoldable pub deadline_reported : Report → Hosted S P → Hosted S P
  unfolding still_pending
  deadline_reported x h = elim (get Address-discrete x.peer h.host.conversations) [
    | none ↦ h
    | some ws ↦ cond (still_pending x ws) (fail_exchange own x.peer (deadline_elapsed x.kind) h) h
  ]
