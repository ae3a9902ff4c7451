-- ===== src/Domain/TurnState/Death.antt =====
-- crates/kamiroh-domain/src/protocol.rs: what a machine does after a failure verdict.
use kamiroh.Domain.Protocol.{is_open}
use kamiroh.Domain.Vocabulary.{Turn, RequestId}
use kamiroh.Domain.TurnState.{
  TurnState, on_outgoing, on_incoming, fail, awaiting_their_turn, owe_them, failed, exchange_failed,
}
use kamiroh.Common.{
  Bool, List, any, false, ◌∷◌, ◌≡◌, ◌⊎◌, [], Bool-cases, arith, err, inl, inr, refl,
}

-- One event of a conversation, seen from one machine.
pub data Happening : Type 0 where
  sending receiving : Turn → Happening
  verdict : Happening

unfoldable pub react : TurnState → Happening → TurnState
react s (sending t) = (on_outgoing s t).0
react s (receiving t) = (on_incoming s t).0
react s verdict = (fail s).0

unfoldable pub react_all : TurnState → List Happening → TurnState
react_all s [] = s
react_all s (e ∷ es) = react_all (react s e) es

unfoldable pub opens_afresh : Happening → Bool
opens_afresh (sending t) = is_open t
opens_afresh (receiving t) = is_open t
opens_afresh verdict = false

react_failed : (e : Happening) → opens_afresh e ≡ false → react failed e ≡ failed
unfolding react opens_afresh is_open on_outgoing on_incoming fail
react_failed e h = ground arith

react_all_failed :
    (es : List Happening) → any opens_afresh es ≡ false → react_all failed es ≡ failed
unfolding react_all
react_all_failed [] h = refl
react_all_failed (e ∷ es) h = elim (Bool-cases (opens_afresh e)) [
  | inl fresh ↦ absurd (ground arith)
  | inr stale ↦ rw (react_failed e stale) (react_all_failed es (ground arith))
]

abbrev pub IsLive : TurnState → Type 0
IsLive s = (o : RequestId) × ((s ≡ awaiting_their_turn o) ⊎ (s ≡ owe_them o))

-- A failure verdict on a live exchange is final: whatever turns are then sent or received and
-- whatever verdicts come in, the machine stays `Failed` as long as none of the turns is an `Open`,
-- and refuses each such turn with `ExchangeFailed`.
pub fail_is_final :
    (s : TurnState) (es : List Happening) (t : Turn)
    → IsLive s
    → any opens_afresh es ≡ false
    → is_open t ≡ false
    → let dead = react_all (fail s).0 es in
      (dead ≡ failed)
      × (on_outgoing dead t ≡ (failed, err exchange_failed))
      × (on_incoming dead t ≡ (failed, err exchange_failed))
unfolding fail is_open on_outgoing on_incoming
fail_is_final s es t (o, inl e) h k = rw e (ground (arith, react_all_failed es h))
fail_is_final s es t (o, inr e) h k = rw e (ground (arith, react_all_failed es h))
