-- ===== src/App/Conversation/Sequential.antt =====
-- crates/kamiroh-app/src/conversation.rs: histories of attempts to begin and to conclude.
use kamiroh.Common.{
  [], ◌∷◌, Option, Result, List, ◌≡◌, true, none, some, ok, err, inl, inr, Bool-cases,
}
use kamiroh.Domain.Vocabulary.{Message}
use kamiroh.App.Conversation.{Conversation, begin, ExchangeError, conclude}
use kamiroh.Domain.Protocol.{opens, completes}
use kamiroh.Domain.Address.{Address}

pub data Call : Type 0 where
  begins concludes : Message → Call

unfoldable pub call : Conversation → Call → Conversation × Result (Unit {0}) ExchangeError
call c (begins m) = begin c m
call c (concludes m) = conclude c m

abbrev kept : Call → Result (Unit {0}) ExchangeError → List Call → List Call
kept x (ok u) xs = x ∷ xs
kept x (err e) xs = xs

-- The calls of a history that succeed, in order.
unfoldable pub succeeding : Conversation → List Call → List Call
succeeding c [] = []
succeeding c (x ∷ xs) = let (c', result) = call c x in kept x result (succeeding c' xs)

-- One exchange at a time: with none in flight only an opening message may come, and with one in
-- flight only a message that completes it.
pub data Sequential : Option Message → List Call → Type 0 where
  done : (o : Option Message) → Sequential o []
  begun :
      (m : Message) {xs : List Call}
      → opens m ≡ true
      → Sequential (some m) xs
      → Sequential none (begins m ∷ xs)
  concluded :
      (m r : Message) {xs : List Call}
      → completes m r ≡ true
      → Sequential none xs
      → Sequential (some m) (concludes r ∷ xs)

abbrev conversation : Address → Option Message → Conversation
conversation peer o = record { peer = peer; in_flight = o }

Sequential-from :
    (peer : Address) (o : Option Message) (xs : List Call)
    → Sequential o (succeeding (conversation peer o) xs)
unfolding succeeding call begin conclude
Sequential-from peer o [] = done o
Sequential-from peer none (begins m ∷ xs) = elim (Bool-cases (opens m)) [
  | inl h ↦ rw h (begun m h (Sequential-from peer (some m) xs))
  | inr h ↦ rw h (Sequential-from peer none xs)
]
Sequential-from peer (some m) (begins n ∷ xs) = elim (Bool-cases (opens n)) [
  | inl h ↦ rw h (Sequential-from peer (some m) xs)
  | inr h ↦ rw h (Sequential-from peer (some m) xs)
]
Sequential-from peer none (concludes r ∷ xs) = Sequential-from peer none xs
Sequential-from peer (some m) (concludes r ∷ xs) = elim (Bool-cases (completes m r)) [
  | inl h ↦ rw h (concluded m r h (Sequential-from peer none xs))
  | inr h ↦ rw h (Sequential-from peer (some m) xs)
]

-- In every history of attempts to begin and to conclude, the attempts that succeed are
-- sequential: no exchange begins while one is in flight, and each is concluded by a reply that
-- completes its own opening.
pub succeeding-Sequential :
    (c : Conversation) (xs : List Call) → Sequential c.in_flight (succeeding c xs)
succeeding-Sequential c xs = Sequential-from c.peer c.in_flight xs
