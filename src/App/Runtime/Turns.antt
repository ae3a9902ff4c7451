-- ===== src/App/Runtime/Turns.antt =====
-- crates/kamiroh-app/src/runtime.rs: what a step does with an admitted turn.
use kamiroh.App.Runtime.{
  ◌>>=◌, ◌>>◌, transport_failed, LocalActor, PeerState, Ports, M, Stepped, actor_at,
  no_exchange_yet, emit, pure, write_actor, delivered,
}
use kamiroh.Domain.TurnState.{on_incoming, on_outgoing, TurnError}
use kamiroh.Domain.Vocabulary.{Turn, Message, turn_message, request_of}
use kamiroh.App.Parties.{entry_or, put, on_turn_boxed, DynParty}
use kamiroh.Common.{none, ◌+◌, some, ok, err, true, false, Option, ℕ, Bool}
use kamiroh.App.Phone.{ack_wait_of, turn_wait_of}
use kamiroh.Ports.{illegal_turn_dropped}
use kamiroh.App.Runtime.Manage.{fail_exchange}
use kamiroh.Domain.Deadline.{send_failed, illegal_reply, Deadlines}
use kamiroh.Domain.Address.{ActorName, Address}

-- The conversation after a turn of the peer: a legal turn settles every wait.
unfoldable pub hear_turn : PeerState → Turn → PeerState × Option TurnError
hear_turn ps t =
    let (s, outcome) = on_incoming ps.state t in
    elim outcome [
      | ok progress ↦ (record { state = s; ack_due = none; turn_due = none }, none)
      | err e ↦ (record ps { state = s }, some e)
    ]

-- The conversation after a reply of the party: a legal reply arms its waits.
unfoldable pub speak_turn : Deadlines → ℕ → PeerState → Turn → PeerState × Bool
speak_turn d now ps t =
    let (s, outcome) = on_outgoing ps.state t in
    elim outcome [
      | ok progress ↦ (
        record {
          state = s;
          ack_due = ack_wait_of (request_of t) (now + d.ack);
          turn_due = turn_wait_of progress (now + d.turn);
        },
        true,
      )
      | err e ↦ (record ps { state = s }, false)
    ]

-- `conversations.entry(peer).or_default()`, and a write through it.
abbrev pub peer_state : {P : Type 0} → LocalActor P → Address → PeerState
peer_state a peer = entry_or peer no_exchange_yet a.conversations

abbrev pub write_peer : {P : Type 0} → LocalActor P → Address → PeerState → LocalActor P
write_peer a peer ps = record a { conversations = put peer ps a.conversations }

module _ {S P : Type 0} (ports : Ports S P) where
  unfoldable pub send : Address → Address → Message → M S P (Unit {0})
  send from to m r =
      let (w, answer) = ports.transport.send r.world from to m in
      elim answer [
        | ok u ↦ (record r { world = w }, ok tt)
        | err e ↦ (record r { world = w }, err (transport_failed e))
      ]

  -- A refused ack is ignored.
  unfoldable pub send_ack : Address → Address → Option Message → M S P (Unit {0})
  unfolding send
  send_ack from to none r = (r, ok tt)
  send_ack from to (some ack) r = let (r', answer) = send from to ack r in (r', ok tt)

  unfoldable pub arrive : ActorName → Address → Turn → M S P (Option TurnError)
  unfolding hear_turn
  arrive name peer t = do
    a ← actor_at name
    let (ps, refused) = hear_turn (peer_state a peer) t
    write_actor name (write_peer a peer ps)
    pure refused

  unfoldable pub ask_party :
      Option (DynParty P) → Address → Turn → Option (DynParty P) × Option Turn
  ask_party none peer t = (none, none)
  ask_party (some p) peer t = let (p', reply) = on_turn_boxed ports.own p peer t in (some p', reply)

  unfoldable pub hand_over : ActorName → Address → Turn → M S P (Option Turn)
  unfolding ask_party
  hand_over name peer t = do
    a ← actor_at name
    let (p, reply) = ask_party a.party peer t
    write_actor name (record a { party = p })
    pure reply

  unfoldable pub arm : ActorName → Address → Turn → M S P Bool
  unfolding speak_turn
  arm name peer reply r =
      (do
        a ← actor_at name
        let (ps, sendable) =
            speak_turn a.deadlines (ports.timer.now r.world) (peer_state a peer) reply
        write_actor name (write_peer a peer ps)
        pure sendable)
        r

  -- The reply goes out, or the exchange fails.
  unfoldable pub send_reply : ActorName → Address → Address → Turn → M S P Stepped
  unfolding send
  send_reply name me peer reply r =
      let (r', answer) = send me peer (turn_message reply) r in
      elim answer [
        | ok u ↦ (r', ok delivered)
        | err e ↦ fail_exchange ports name peer send_failed r'
      ]

  unfoldable pub finish_reply : ActorName → Address → Address → Turn → Bool → M S P Stepped
  finish_reply name me peer reply false = fail_exchange ports name peer illegal_reply
  finish_reply name me peer reply true = send_reply name me peer reply

  unfoldable pub answer_with : ActorName → Address → Address → Option Turn → M S P Stepped
  answer_with name me peer none = pure delivered
  answer_with name me peer (some reply) = arm name peer reply >>= finish_reply name me peer reply

  unfoldable pub drop_illegal : Address → Address → TurnError → M S P Stepped
  drop_illegal me peer e r = (emit (illegal_turn_dropped peer me e) r, ok delivered)

  -- An illegal turn is dropped; a legal one is acked and answered.
  unfoldable pub after_arrival :
      ActorName → Address → Address → Turn → Option Message → Option TurnError → M S P Stepped
  after_arrival name me peer t ack (some e) = drop_illegal me peer e
  after_arrival name me peer t ack none = do
    send_ack me peer ack
    reply ← hand_over name peer t
    answer_with name me peer reply

  -- The branch `Inbound::Turn` of `step`.
  unfoldable pub take_turn : ActorName → Address → Address → Turn → Option Message → M S P Stepped
  take_turn name me peer t ack = arrive name peer t >>= after_arrival name me peer t ack
