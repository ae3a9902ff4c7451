-- ===== src/App/Armed.antt =====
-- phone.rs and runtime.rs of crates/kamiroh-app/src: when the waits of a conversation fit its
-- machine. While the peer's turn is awaited its deadline is armed, and an ack that is still
-- waited for is that of the outstanding request; at any other time no wait is armed.
use kamiroh.Domain.TurnState.{idle, awaiting_their_turn, owe_them, failed, TurnState}
use kamiroh.Common.{Option, ℕ, some, ◌≡◌, none}
use kamiroh.Domain.Vocabulary.{RequestId}

abbrev pub Armed : TurnState → Option (RequestId × ℕ) → Option ℕ → Type 0
Armed (awaiting_their_turn o) none (some t) = Unit
Armed (awaiting_their_turn o) (some (id, a)) (some t) = id ≡ o
Armed (awaiting_their_turn o) _ none = ⊥
Armed idle none none = Unit
Armed (owe_them o) none none = Unit
Armed failed none none = Unit
Armed _ _ _ = ⊥
