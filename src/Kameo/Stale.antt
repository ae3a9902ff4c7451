-- ===== src/Kameo/Stale.antt =====
-- crates/kamiroh-adapter-kameo/src/lib.rs: reports of timers of an earlier round.
use kamiroh.Kameo.Handling.{world_moves, turn_delivered}
use kamiroh.Domain.Allowlist.{revoke}
use kamiroh.Kameo.Advancing.{
  HostPast, HostPast-upto, fail_once, fail_affected, state-HostPast, answer_with-HostPast,
}
use kamiroh.Kameo.Rounds.{
  Tracked-put, Tracked-waits, Tracked-settle, OneEach, PastAt, Tracked-new, Past-not_pending,
}
use kamiroh.Common.{
  refl, inl, inr, [], ◌∷◌, none, some, ok, err, ℕ, ◌<◌, ◌^◌, Result, ◌+◌, List, Option, arith,
  length, ◌≡◌, subst, sym, Option-cases, ap, ◌∙◌,
}
use kamiroh.Ports.{Transport, Party, illegal_turn_dropped}
use kamiroh.Domain.Address.{Address, Address-discrete}
use kamiroh.Kameo.Host.{
  Hosted, emit, settle_all, PeerWaits, Report, admit_here, revoke_here, peer_died,
}
use kamiroh.Domain.Deadline.{deadline_elapsed, revoked, disconnected}
use kamiroh.Domain.TurnState.{TurnState, TurnProgress, TurnError, on_incoming}
use kamiroh.Domain.Vocabulary.{Turn, Message, Ack}
use kamiroh.Kameo.Timers.{
  with_waits, answer_with, waits_of, ask_party, send_ack, take_turn, deadline_reported, take_ack,
}
use kamiroh.Common.Assoc.{get}
use kamiroh.Kameo.Handling.{
  handle, handle_all, HostMessage, turn_delivered, ack_delivered, elapsed_reported, admit_asked,
  revoke_asked, death_told,
}

module _ {S P : Type 0} (net : Transport S) (own : Party P) (peer : Address) (e : ℕ)
    (small : e < 2 ^ 64) where
  send_ack-HostPast :
      (n : ℕ) (p : Address) (ack : Option Message) (h : Hosted S P)
      → HostPast net own peer e small n h
      → HostPast net own peer e small n (send_ack net own p ack h)
  unfolding send_ack
  send_ack-HostPast n p none h i = i
  send_ack-HostPast n p (some ack) h i = i

  ask_party-HostPast :
      (n : ℕ) (p : Address) (t : Turn) (h : Hosted S P)
      → HostPast net own peer e small n h
      → HostPast net own peer e small n (ask_party net own p t h).0
  unfolding ask_party
  ask_party-HostPast n p t h i = ground arith

  -- The conversation of a peer whose turn was heard.
  settle-HostPast :
      (n : ℕ) (p : Address) (s : TurnState) (h : Hosted S P)
      → HostPast net own peer e small n h
      → HostPast net own peer e small n
          (with_waits net own p (settle_all (record (waits_of net own h p) { state = s })) h)
  unfolding settle_all
  settle-HostPast n p s h i =
      let past = Tracked-waits peer p e n h.host.conversations i in
      Tracked-put peer p e n (settle_all (record (waits_of net own h p) { state = s }))
        h.host.conversations (λ q. ground (arith, past q)) i

  -- What a legal turn does once its waits are settled.
  legal-HostPast :
      (n : ℕ) (p : Address) (t : Turn) (ack : Option Message) (h : Hosted S P)
      → HostPast net own peer e small n h
      → let (h', reply) = ask_party net own p t (send_ack net own p ack h) in
        HostPast net own peer e small (n + 1) (answer_with net own p reply h')
  legal-HostPast n p t ack h i =
      answer_with-HostPast net own peer e small n p _ _
        (ask_party-HostPast n p t (send_ack net own p ack h) (send_ack-HostPast n p ack h i))

  received-HostPast :
      (n : ℕ) (p : Address) (t : Turn) (ack : Option Message) (h : Hosted S P) (s : TurnState)
      (outcome : Result TurnProgress TurnError)
      → HostPast net own peer e small n h
      → let ws : PeerWaits = record (waits_of net own h p) { state = s } in
        let after : Hosted S P = elim outcome [
          | err why ↦
              emit own (illegal_turn_dropped p h.host.address why) (with_waits net own p ws h)
          | ok progress ↦
              let heard = send_ack net own p ack (with_waits net own p (settle_all ws) h) in
              let (h', reply) = ask_party net own p t heard in answer_with net own p reply h'
        ] in
        HostPast net own peer e small (n + 1) after
  unfolding emit
  received-HostPast n p t ack h s (err why) i =
      let h' = with_waits net own p (record (waits_of net own h p) { state = s }) h in
      HostPast-upto net own peer e small n (n + 1) h' (omega arith)
        (state-HostPast net own peer e small n p s h i)
  received-HostPast n p t ack h s (ok progress) i =
      legal-HostPast n p t ack _ (settle-HostPast n p s h i)

  take_turn-HostPast :
      (n : ℕ) (p : Address) (t : Turn) (ack : Option Message) (h : Hosted S P)
      → HostPast net own peer e small n h
      → HostPast net own peer e small (n + 1) (take_turn net own p t ack h)
  unfolding take_turn
  take_turn-HostPast n p t ack h i =
      let (s, outcome) = on_incoming (waits_of net own h p).state t in
      received-HostPast n p t ack h s outcome i

  take_ack-HostPast :
      (n : ℕ) (p : Address) (a : Ack) (h : Hosted S P)
      → HostPast net own peer e small n h
      → HostPast net own peer e small (n + 1) (take_ack net own p a h)
  unfolding take_ack
  take_ack-HostPast n p a h i =
      HostPast-upto net own peer e small n (n + 1) (take_ack net own p a h) (omega arith)
        (Tracked-settle peer p e n a.id h.host.conversations i)

  deadline_reported-HostPast :
      (n : ℕ) (x : Report) (h : Hosted S P)
      → HostPast net own peer e small n h
      → HostPast net own peer e small (n + 1) (deadline_reported own x h)
  unfolding deadline_reported
  deadline_reported-HostPast n x h i =
      let failed = fail_once net own peer e small n x.peer (deadline_elapsed x.kind) h i in
      let kept = HostPast-upto net own peer e small n (n + 1) h (omega arith) i in ground arith

  -- A message moves the epoch of a conversation on by one round at most.
  handle-HostPast :
      (n : ℕ) (x : HostMessage S) (h : Hosted S P)
      → HostPast net own peer e small n h
      → HostPast net own peer e small (n + 1) (handle net own x h)
  unfolding handle admit_here revoke_here peer_died
  handle-HostPast n (turn_delivered p t ack) h i = take_turn-HostPast n p t ack h i
  handle-HostPast n (ack_delivered p a) h i = take_ack-HostPast n p a h i
  handle-HostPast n (elapsed_reported x) h i = deadline_reported-HostPast n x h i
  handle-HostPast n (admit_asked end) h i =
      HostPast-upto net own peer e small n (n + 1) h (omega arith) i
  handle-HostPast n (revoke_asked end) h i =
      fail_affected net own peer e small n end revoked
        (record h { host = record h.host { allowlist = revoke h.host.allowlist end } }) i
  handle-HostPast n (death_told end) h i = fail_affected net own peer e small n end disconnected h i
  handle-HostPast n (world_moves f) h i =
      HostPast-upto net own peer e small n (n + 1) h (omega arith) i

  handle_all-HostPast :
      (n : ℕ) (xs : List (HostMessage S)) (h : Hosted S P)
      → HostPast net own peer e small n h
      → HostPast net own peer e small (n + length xs) (handle_all net own xs h)
  unfolding handle_all
  handle_all-HostPast n [] h i = HostPast-upto net own peer e small n (n + 0) h (omega arith) i
  handle_all-HostPast n (x ∷ xs) h i =
      HostPast-upto net own peer e small ((n + 1) + length xs) (n + length (x ∷ xs))
        (handle_all net own xs (handle net own x h)) (omega arith)
        (handle_all-HostPast (n + 1) xs (handle net own x h) (handle-HostPast n x h i))

  -- What a legal turn leaves, whatever was awaited before.
  opened-HostPast :
      (t : Turn) (ack : Option Message) (h : Hosted S P) (s : TurnState)
      (outcome : Result TurnProgress TurnError) {progress : TurnProgress}
      → OneEach h.host.conversations
      → e ≡ (waits_of net own h peer).epoch
      → outcome ≡ ok progress
      → let ws : PeerWaits = record (waits_of net own h peer) { state = s } in
        let after : Hosted S P = elim outcome [
          | err why ↦
              emit own (illegal_turn_dropped peer h.host.address why) (with_waits net own peer ws h)
          | ok progress ↦
              let heard = send_ack net own peer ack (with_waits net own peer (settle_all ws) h) in
              let (h', reply) = ask_party net own peer t heard in answer_with net own peer reply h'
        ] in
        HostPast net own peer e small 1 after
  unfolding settle_all
  opened-HostPast t ack h s (err why) one now k = ground (arith, k)
  opened-HostPast t ack h s (ok progress) one now k =
      let settled = settle_all (record (waits_of net own h peer) { state = s }) in
      legal-HostPast 0 peer t ack (with_waits net own peer settled h)
        (Tracked-new peer e 0 settled h.host.conversations (inl (refl, refl, sym now)) one)

  heard-HostPast :
      (t : Turn) (ack : Option Message) (h : Hosted S P) {progress : TurnProgress}
      → OneEach h.host.conversations
      → e ≡ (waits_of net own h peer).epoch
      → (on_incoming (waits_of net own h peer).state t).1 ≡ ok progress
      → HostPast net own peer e small 1 (take_turn net own peer t ack h)
  unfolding take_turn
  heard-HostPast t ack h one now legal =
      let (s, outcome) = on_incoming (waits_of net own h peer).state t in
      opened-HostPast t ack h s outcome one now legal

  past_ignored :
      (n : ℕ) (x : Report) (h : Hosted S P)
      → n < 2 ^ 64
      → x.peer ≡ peer
      → x.epoch ≡ e
      → HostPast net own peer e small n h
      → deadline_reported own x h ≡ h
  unfolding deadline_reported
  past_ignored n x h few q r i =
      let m = h.host.conversations in
      elim (Option-cases (get Address-discrete x.peer m)) [
        | inl k ↦ rw (k, deadline_reported) refl
        | inr (ws, k) ↦
            let past = subst (PastAt e n) (ap (λ p. get Address-discrete p m) (sym q) ∙ k) i.1 in
            rw (k, deadline_reported, Past-not_pending e n x ws small few r past) refl
      ]

module _ {S P : Type 0} (net : Transport S) (own : Party P) where
  -- A timer's report, of an ack or of a turn, that carries the epoch at which a legal turn of the
  -- peer finds its conversation changes nothing from then on: where the host has one conversation
  -- for each peer, such a report is ignored at once and after any further messages, of whatever
  -- kind and outcome, as long as they are fewer than 2^64 - 1.
  pub stale_report_ignored :
      (x : Report) (xs : List (HostMessage S)) (t : Turn) (ack : Option Message) (h : Hosted S P)
      {progress : TurnProgress}
      → OneEach h.host.conversations
      → x.epoch ≡ (waits_of net own h x.peer).epoch
      → x.epoch < 2 ^ 64
      → (on_incoming (waits_of net own h x.peer).state t).1 ≡ ok progress
      → 1 + length xs < 2 ^ 64
      → let after = handle_all net own xs (take_turn net own x.peer t ack h) in
        deadline_reported own x after ≡ after
  stale_report_ignored x xs t ack h one now small legal few =
      past_ignored net own x.peer x.epoch small (1 + length xs) x
        (handle_all net own xs (take_turn net own x.peer t ack h)) few refl refl
        (handle_all-HostPast net own x.peer x.epoch small 1 xs (take_turn net own x.peer t ack h)
          (heard-HostPast net own x.peer x.epoch small t ack h one now legal))
