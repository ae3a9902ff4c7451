-- ===== src/Kameo/Answering.antt =====
-- crates/kamiroh-adapter-kameo/src/lib.rs: failures and replies of a host, and the timers behind
-- its waits.
use kamiroh.Kameo.Host.{Hosted, PeerWaits, fail_exchange, fail_exchanges, emit, no_waits}
use kamiroh.Kameo.Timers.{arm, waits_of, with_waits, id_posed, answer_with, send_reply}
use kamiroh.Kameo.Backed.{
  AllBacked, Backed, AllBacked-but, failed-AllBacked, armed-Backed, waits_of-Backed, AllBacked-more,
  armed_waits,
}
use kamiroh.App.Parties.{entry_or-put}
use kamiroh.Common.Assoc.{insert-insert, AllEntries-insert, AllEntries}
use kamiroh.Common.{[], ◌∷◌, ok, inl, refl, List, Option, ◌≡◌, ◌⊎◌, none, some, err, Result, Text}
use kamiroh.Domain.TurnState.{on_outgoing, TurnState, TurnProgress, TurnError}
use kamiroh.Ports.{Transport, Party}
use kamiroh.Domain.Address.{Address, Address-discrete}
use kamiroh.Domain.Vocabulary.{Turn, turn_message}
use kamiroh.Domain.Deadline.{FailureCause, illegal_reply, send_failed}

module _ {S P : Type 0} (net : Transport S) (own : Party P) where
  abbrev pub HostBacked : Hosted S P → Type 0
  HostBacked h = AllBacked h.tasks h.host.conversations

  pub fail_exchange-HostBacked :
      (peer : Address) (cause : FailureCause) (h : Hosted S P)
      → AllEntries (λ p ws. (p ≡ peer) ⊎ Backed h.tasks p ws) h.host.conversations
      → HostBacked (fail_exchange own peer cause h)
  unfolding fail_exchange emit
  fail_exchange-HostBacked peer cause h i = failed-AllBacked h.tasks peer h.host.conversations i

  pub fail_exchanges-HostBacked :
      (peers : List Address) (cause : FailureCause) (h : Hosted S P)
      → HostBacked h
      → HostBacked (fail_exchanges own peers cause h)
  unfolding fail_exchanges
  fail_exchanges-HostBacked [] cause h i = i
  fail_exchanges-HostBacked (peer ∷ peers) cause h i =
      fail_exchanges-HostBacked peers cause (fail_exchange own peer cause h)
        (fail_exchange-HostBacked peer cause h (AllBacked-but h.tasks peer h.host.conversations i))

  -- A conversation that is written and then failed.
  write_fail-HostBacked :
      (peer : Address) (ws : PeerWaits) (cause : FailureCause) (h : Hosted S P)
      → HostBacked h
      → HostBacked (fail_exchange own peer cause (with_waits net own peer ws h))
  write_fail-HostBacked peer ws cause h i =
      fail_exchange-HostBacked peer cause (with_waits net own peer ws h) (
        AllEntries-insert Address-discrete (λ p x. (p ≡ peer) ⊎ Backed h.tasks p x) peer ws
          h.host.conversations (inl refl) (AllBacked-but h.tasks peer h.host.conversations i))

  arm-HostBacked :
      (peer : Address) (t : Turn) (h : Hosted S P) {s : TurnState} {progress : TurnProgress}
      → HostBacked h
      → on_outgoing (waits_of net own h peer).state t ≡ (s, ok progress)
      → HostBacked (
          arm net own peer
            (id_posed t)
            progress
            (with_waits net own peer (record (waits_of net own h peer) { state = s }) h))
  unfolding arm
  arm-HostBacked peer t h {s} {progress} i e =
      let ws = waits_of net own h peer in
      let m = h.host.conversations in
      rw
        (
          entry_or-put peer no_waits (record ws { state = s }) m,
          insert-insert Address-discrete peer (record ws { state = s })
              (armed_waits ws s t progress) m,
        )
        (AllEntries-insert Address-discrete (λ p x. Backed _ p x) peer (armed_waits ws s t progress)
          m (armed-Backed h.tasks peer ws t (waits_of-Backed h.tasks peer m i) e)
          (AllBacked-more _ _ m (AllBacked-more _ _ m i)))

  -- The reply that is sent, after the transport has answered.
  replied-HostBacked :
      (peer : Address) (t : Turn) (h : Hosted S P) {s : TurnState} {progress : TurnProgress}
      (y : S × Result (Unit {0}) Text)
      → HostBacked h
      → on_outgoing (waits_of net own h peer).state t ≡ (s, ok progress)
      → let h' = with_waits net own peer (record (waits_of net own h peer) { state = s }) h in
        let after : Hosted S P = elim y.1 [
          | ok u ↦ arm net own peer (id_posed t) progress (record h' { world = y.0 })
          | err e ↦ fail_exchange own peer send_failed (record h' { world = y.0 })
        ] in
        HostBacked after
  replied-HostBacked peer t h (w, ok u) i e = arm-HostBacked peer t (record h { world = w }) i e
  replied-HostBacked peer t h {s} (w, err why) i e =
      write_fail-HostBacked peer (record (waits_of net own h peer) { state = s }) send_failed
        (record h { world = w }) i

  spoken-HostBacked :
      (peer : Address) (t : Turn) (h : Hosted S P) (y : TurnState × Result TurnProgress TurnError)
      → HostBacked h
      → on_outgoing (waits_of net own h peer).state t ≡ y
      → let h' = with_waits net own peer (record (waits_of net own h peer) { state = y.0 }) h in
        let after : Hosted S P = elim y.1 [
          | err e ↦ fail_exchange own peer illegal_reply h'
          | ok progress ↦ send_reply net own peer t progress h'
        ] in
        HostBacked after
  unfolding send_reply
  spoken-HostBacked peer t h (s, ok progress) i e =
      replied-HostBacked peer t h (net.send h.world h.host.address peer (turn_message t)) i e
  spoken-HostBacked peer t h (s, err why) i e =
      write_fail-HostBacked peer (record (waits_of net own h peer) { state = s }) illegal_reply h i

  pub answer_with-HostBacked :
      (peer : Address) (reply : Option Turn) (h : Hosted S P)
      → HostBacked h
      → HostBacked (answer_with net own peer reply h)
  unfolding answer_with
  answer_with-HostBacked peer none h i = i
  answer_with-HostBacked peer (some t) h i =
      spoken-HostBacked peer t h (on_outgoing (waits_of net own h peer).state t) i refl
