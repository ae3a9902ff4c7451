-- ===== src/Kameo/Handling.antt =====
-- crates/kamiroh-adapter-kameo/src/lib.rs: runs of a host through its messages.
use kamiroh.Kameo.Host.{
  Hosted, PeerWaits, Report, fail_exchange, revoke_here, admit_here, peer_died, emit, affected,
  settle_ack, settle_all,
}
use kamiroh.Kameo.Timers.{
  take_turn, take_ack, deadline_reported, waits_of, with_waits, answer_with, ask_party, send_ack,
  still_pending,
}
use kamiroh.Kameo.Backed.{
  AllBacked, Backed, AllBacked-but, waits_of-Backed, settle_ack-Backed, Spawned, refused-Backed,
  turn_report, heard-Backed,
}
use kamiroh.Common.Assoc.{AllEntries-insert, get, AllEntries-modify, AllEntries-get}
use kamiroh.Common.{
  [], ◌∷◌, ok, refl, List, Option, ◌≡◌, none, some, err, Result, ite, arith, subst, sym,
}
use kamiroh.Domain.TurnState.{TurnState, TurnProgress, on_incoming, TurnError, awaiting_their_turn}
use kamiroh.Ports.{Transport, Party, illegal_turn_dropped}
use kamiroh.Domain.Address.{Address, Address-discrete, EndpointId}
use kamiroh.Domain.Vocabulary.{Turn, Message, Ack, RequestId}
use kamiroh.Domain.Deadline.{deadline_elapsed, revoked, disconnected, turn_wait}
use kamiroh.Kameo.Answering.{
  HostBacked, fail_exchange-HostBacked, fail_exchanges-HostBacked, answer_with-HostBacked,
}

-- The messages of a host: an admitted delivery of a turn or of an ack, a timer's report, and what
-- its runtime asks of it; `world_moves` is whatever else changes the world.
pub data HostMessage (S : Type 0) : Type 0 where
  turn_delivered : Address → Turn → Option Message → HostMessage S
  ack_delivered : Address → Ack → HostMessage S
  elapsed_reported : Report → HostMessage S
  admit_asked revoke_asked death_told : EndpointId → HostMessage S
  world_moves : (S → S) → HostMessage S

module _ {S P : Type 0} (net : Transport S) (own : Party P) where
  unfoldable pub handle : HostMessage S → Hosted S P → Hosted S P
  handle (turn_delivered peer t ack) h = take_turn net own peer t ack h
  handle (ack_delivered peer a) h = take_ack net own peer a h
  handle (elapsed_reported x) h = deadline_reported own x h
  handle (admit_asked e) h = admit_here own e h
  handle (revoke_asked e) h = (revoke_here own e h).0
  handle (death_told e) h = peer_died own e h
  handle (world_moves f) h = record h { world = f h.world }

  unfoldable pub handle_all : List (HostMessage S) → Hosted S P → Hosted S P
  handle_all [] h = h
  handle_all (x ∷ xs) h = handle_all xs (handle x h)

  send_ack-HostBacked :
      (peer : Address) (ack : Option Message) (h : Hosted S P)
      → HostBacked net own h
      → HostBacked net own (send_ack net own peer ack h)
  unfolding send_ack
  send_ack-HostBacked peer none h i = i
  send_ack-HostBacked peer (some ack) h i = i

  ask_party-HostBacked :
      (peer : Address) (t : Turn) (h : Hosted S P)
      → HostBacked net own h
      → HostBacked net own (ask_party net own peer t h).0
  unfolding ask_party
  ask_party-HostBacked peer t h i = ground arith

  -- A write of a conversation that is backed.
  write-HostBacked :
      (peer : Address) (ws : PeerWaits) (h : Hosted S P)
      → Backed h.tasks peer ws
      → HostBacked net own h
      → HostBacked net own (with_waits net own peer ws h)
  write-HostBacked peer ws h b i =
      AllEntries-insert Address-discrete (λ p x. Backed h.tasks p x) peer ws h.host.conversations b
        i

  received-HostBacked :
      (peer : Address) (t : Turn) (ack : Option Message) (h : Hosted S P)
      (y : TurnState × Result TurnProgress TurnError)
      → HostBacked net own h
      → on_incoming (waits_of net own h peer).state t ≡ y
      → let ws = waits_of net own h peer in
        let after : Hosted S P = elim y.1 [
          | err e ↦
              emit own
                (illegal_turn_dropped peer h.host.address e)
                (with_waits net own peer (record ws { state = y.0 }) h)
          | ok progress ↦
              let heard =
                send_ack net own peer ack
                  (with_waits net own peer (settle_all (record ws { state = y.0 })) h) in
              let (h', reply) = ask_party net own peer t heard in answer_with net own peer reply h'
        ] in
        HostBacked net own after
  unfolding emit
  received-HostBacked peer t ack h (s, err e) i k =
      write-HostBacked peer (record (waits_of net own h peer) { state = s }) h
        (refused-Backed h.tasks peer (waits_of net own h peer) t
          (waits_of-Backed h.tasks peer h.host.conversations i) k)
        i
  received-HostBacked peer t ack h (s, ok progress) i k =
      let ws = waits_of net own h peer in
      let heard = settle_all (record ws { state = s }) in
      let written = write-HostBacked peer heard h (heard-Backed h.tasks peer ws t k) i in
      answer_with-HostBacked net own peer _ _ (
        ask_party-HostBacked peer t _
          (send_ack-HostBacked peer ack (with_waits net own peer heard h) written))

  take_turn-HostBacked :
      (peer : Address) (t : Turn) (ack : Option Message) (h : Hosted S P)
      → HostBacked net own h
      → HostBacked net own (take_turn net own peer t ack h)
  unfolding take_turn
  take_turn-HostBacked peer t ack h i =
      received-HostBacked peer t ack h (on_incoming (waits_of net own h peer).state t) i refl

  take_ack-HostBacked :
      (peer : Address) (a : Ack) (h : Hosted S P)
      → HostBacked net own h
      → HostBacked net own (take_ack net own peer a h)
  unfolding take_ack
  take_ack-HostBacked peer a h i =
      AllEntries-modify Address-discrete (λ p x. Backed h.tasks p x) (λ p x. Backed h.tasks p x)
        peer (settle_ack a.id) h.host.conversations (λ p ws k. one p ws k (Address-discrete p peer))
        i
    where
      one :
          (p : Address) (ws : PeerWaits)
          → Backed h.tasks p ws
          → (x : Dec (p ≡ peer)) → Backed h.tasks p (ite x (settle_ack a.id ws) ws)
      one p ws k (yes e) = settle_ack-Backed h.tasks p a.id ws k
      one p ws k (no e) = k

  deadline_reported-HostBacked :
      (x : Report) (h : Hosted S P)
      → HostBacked net own h
      → HostBacked net own (deadline_reported own x h)
  unfolding deadline_reported
  deadline_reported-HostBacked x h i =
      let failed =
        fail_exchange-HostBacked net own x.peer (deadline_elapsed x.kind) h
          (AllBacked-but h.tasks x.peer h.host.conversations i) in
      ground arith

  handle-HostBacked :
      (x : HostMessage S) (h : Hosted S P) → HostBacked net own h → HostBacked net own (handle x h)
  unfolding handle admit_here revoke_here peer_died
  handle-HostBacked (turn_delivered peer t ack) h i = take_turn-HostBacked peer t ack h i
  handle-HostBacked (ack_delivered peer a) h i = take_ack-HostBacked peer a h i
  handle-HostBacked (elapsed_reported x) h i = deadline_reported-HostBacked x h i
  handle-HostBacked (admit_asked e) h i = i
  handle-HostBacked (revoke_asked e) h i =
      fail_exchanges-HostBacked net own (affected e h.host.conversations) revoked _ i
  handle-HostBacked (death_told e) h i =
      fail_exchanges-HostBacked net own (affected e h.host.conversations) disconnected h i
  handle-HostBacked (world_moves f) h i = i

  handle_all-HostBacked :
      (xs : List (HostMessage S)) (h : Hosted S P)
      → HostBacked net own h
      → HostBacked net own (handle_all xs h)
  unfolding handle_all
  handle_all-HostBacked [] h i = i
  handle_all-HostBacked (x ∷ xs) h i =
      handle_all-HostBacked xs (handle x h) (handle-HostBacked x h i)

  awaiting_fires :
      (h : Hosted S P) (peer : Address) {ws : PeerWaits} {o : RequestId}
      → Backed h.tasks peer ws
      → get Address-discrete peer h.host.conversations ≡ some ws
      → ws.state ≡ awaiting_their_turn o
      → Spawned (turn_report peer ws.epoch) h.tasks
        × (deadline_reported own (turn_report peer ws.epoch) h
            ≡ fail_exchange own peer (deadline_elapsed turn_wait) h)
  unfolding deadline_reported still_pending
  awaiting_fires h peer b k e = (ground arith, ground arith)

  -- No exchange of a Kameo host lingers: after any messages to a host that starts without
  -- conversations, reports of aborted timers and refused sends included, a conversation that
  -- awaits the peer's turn has a timer spawned for it whose report, handled then, fails the
  -- exchange with the turn's deadline as the cause.
  pub awaiting_has_timer :
      (xs : List (HostMessage S)) (start : Hosted S P) (peer : Address) {ws : PeerWaits}
      {o : RequestId}
      → start.host.conversations ≡ []
      → get Address-discrete peer (handle_all xs start).host.conversations ≡ some ws
      → ws.state ≡ awaiting_their_turn o
      → let h = handle_all xs start in
        Spawned (turn_report peer ws.epoch) h.tasks
        × (deadline_reported own (turn_report peer ws.epoch) h
            ≡ fail_exchange own peer (deadline_elapsed turn_wait) h)
  awaiting_has_timer xs start peer {ws} new k e =
      let i = handle_all-HostBacked xs start (subst (AllBacked start.tasks) (sym new) tt) in
      awaiting_fires (handle_all xs start) peer
        (AllEntries-get Address-discrete (λ p x. Backed (handle_all xs start).tasks p x) peer _ i k)
        k e
