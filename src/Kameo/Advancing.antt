-- ===== src/Kameo/Advancing.antt =====
-- crates/kamiroh-adapter-kameo/src/lib.rs: a host whose conversation with a peer
-- is past a round of its timers.
use kamiroh.Kameo.Rounds.{
  Tracked, PastAt-upto, hit, Tracked-fail, Tracked-put, hits, hits-affected, Tracked-waits,
  Past-next,
}
use kamiroh.Common.{
  inr, Text, [], ◌∷◌, none, some, ok, err, ℕ, ◌<◌, ◌^◌, Result, ◌+◌, ◌≤◌, List, Option, arith,
}
use kamiroh.Ports.{Transport, Party}
use kamiroh.Domain.Address.{Address, EndpointId, Address-discrete}
use kamiroh.Kameo.Host.{Hosted, fail_exchange, fail_exchanges, affected, emit}
use kamiroh.Domain.Deadline.{FailureCause, illegal_reply, send_failed}
use kamiroh.Domain.TurnState.{TurnState, TurnProgress, TurnError, on_outgoing}
use kamiroh.Domain.Vocabulary.{Turn, turn_message, RequestId}
use kamiroh.Kameo.Timers.{with_waits, answer_with, arm, send_reply, waits_of, id_posed}
use kamiroh.Common.Assoc.{get}

module _ {S P : Type 0} (net : Transport S) (own : Party P) (peer : Address) (e : ℕ)
    (small : e < 2 ^ 64) where
  abbrev pub HostPast : ℕ → Hosted S P → Type 0
  HostPast n h = Tracked peer e n h.host.conversations

  pub HostPast-upto : (n k : ℕ) (h : Hosted S P) → n ≤ k → HostPast n h → HostPast k h
  HostPast-upto n k h p i =
      (i.0, PastAt-upto e n k (get Address-discrete peer h.host.conversations) p i.1)

  fail_exchange-HostPast :
      (n : ℕ) (p : Address) (cause : FailureCause) (h : Hosted S P)
      → HostPast n h
      → HostPast (n + hit peer p) (fail_exchange own p cause h)
  unfolding fail_exchange emit
  fail_exchange-HostPast n p cause h i = Tracked-fail peer p e n h.host.conversations small i

  pub fail_once :
      (n : ℕ) (p : Address) (cause : FailureCause) (h : Hosted S P)
      → HostPast n h
      → HostPast (n + 1) (fail_exchange own p cause h)
  fail_once n p cause h i =
      HostPast-upto (n + hit peer p) (n + 1) (fail_exchange own p cause h) (ground arith)
        (fail_exchange-HostPast n p cause h i)

  fail_exchanges-HostPast :
      (n : ℕ) (ps : List Address) (cause : FailureCause) (h : Hosted S P)
      → HostPast n h
      → HostPast (n + hits peer ps) (fail_exchanges own ps cause h)
  unfolding fail_exchanges
  fail_exchanges-HostPast n [] cause h i = HostPast-upto n (n + 0) h (omega arith) i
  fail_exchanges-HostPast n (p ∷ ps) cause h i =
      let h' = fail_exchange own p cause h in
      HostPast-upto ((n + hit peer p) + hits peer ps) (n + (hit peer p + hits peer ps))
        (fail_exchanges own ps cause h') (omega arith)
        (fail_exchanges-HostPast (n + hit peer p) ps cause h'
          (fail_exchange-HostPast n p cause h i))

  pub fail_affected :
      (n : ℕ) (end : EndpointId) (cause : FailureCause) (h : Hosted S P)
      → HostPast n h
      → HostPast (n + 1) (fail_exchanges own (affected end h.host.conversations) cause h)
  fail_affected n end cause h i =
      let ps = affected end h.host.conversations in
      let once = hits-affected peer end h.host.conversations i.0 in
      HostPast-upto (n + hits peer ps) (n + 1) (fail_exchanges own ps cause h) (omega arith)
        (fail_exchanges-HostPast n ps cause h i)

  -- A write of the state of a conversation.
  pub state-HostPast :
      (n : ℕ) (p : Address) (s : TurnState) (h : Hosted S P)
      → HostPast n h
      → HostPast n (with_waits net own p (record (waits_of net own h p) { state = s }) h)
  state-HostPast n p s h i =
      Tracked-put peer p e n (record (waits_of net own h p) { state = s }) h.host.conversations
        (Tracked-waits peer p e n h.host.conversations i) i

  arm-HostPast :
      (n : ℕ) (p : Address) (posed : Option RequestId) (progress : TurnProgress) (h : Hosted S P)
      → HostPast n h
      → HostPast (n + 1) (arm net own p posed progress h)
  unfolding arm
  arm-HostPast n p posed progress h i =
      let ws = waits_of net own h p in
      Tracked-put peer p e (n + 1) _ h.host.conversations
        (λ q. inr (Past-next e n ws small (Tracked-waits peer p e n h.host.conversations i q)))
        (HostPast-upto n (n + 1) h (omega arith) i)

  replied-HostPast :
      (n : ℕ) (p : Address) (t : Turn) (progress : TurnProgress) (h : Hosted S P)
      (answer : Result (Unit {0}) Text)
      → HostPast n h
      → let after : Hosted S P = elim answer [
        | ok u ↦ arm net own p (id_posed t) progress h
        | err why ↦ fail_exchange own p send_failed h
      ] in
        HostPast (n + 1) after
  replied-HostPast n p t progress h (ok u) i = arm-HostPast n p (id_posed t) progress h i
  replied-HostPast n p t progress h (err why) i = fail_once n p send_failed h i

  send_reply-HostPast :
      (n : ℕ) (p : Address) (t : Turn) (progress : TurnProgress) (h : Hosted S P)
      → HostPast n h
      → HostPast (n + 1) (send_reply net own p t progress h)
  unfolding send_reply
  send_reply-HostPast n p t progress h i =
      let (w, answer) = net.send h.world h.host.address p (turn_message t) in
      replied-HostPast n p t progress (record h { world = w }) answer i

  spoken-HostPast :
      (n : ℕ) (p : Address) (t : Turn) (h : Hosted S P) (outcome : Result TurnProgress TurnError)
      → HostPast n h
      → let after : Hosted S P = elim outcome [
        | err why ↦ fail_exchange own p illegal_reply h
        | ok progress ↦ send_reply net own p t progress h
      ] in
        HostPast (n + 1) after
  spoken-HostPast n p t h (ok progress) i = send_reply-HostPast n p t progress h i
  spoken-HostPast n p t h (err why) i = fail_once n p illegal_reply h i

  pub answer_with-HostPast :
      (n : ℕ) (p : Address) (reply : Option Turn) (h : Hosted S P)
      → HostPast n h
      → HostPast (n + 1) (answer_with net own p reply h)
  unfolding answer_with
  answer_with-HostPast n p none h i = HostPast-upto n (n + 1) h (omega arith) i
  answer_with-HostPast n p (some t) h i =
      let (s, outcome) = on_outgoing (waits_of net own h p).state t in
      spoken-HostPast n p t (with_waits net own p (record (waits_of net own h p) { state = s }) h)
        outcome (state-HostPast n p s h i)
