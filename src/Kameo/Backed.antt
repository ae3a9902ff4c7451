-- ===== src/Kameo/Backed.antt =====
-- crates/kamiroh-adapter-kameo/src/lib.rs: when the waits of a conversation fit its machine and
-- stand on timers that were spawned for them.
use kamiroh.Kameo.Host.{
  PeerWaits, Report, no_waits, next_epoch, settle_ack, settle_all, failed_waits,
}
use kamiroh.Kameo.Timers.{ack_task, turn_task, is_continuing, ack_armed, id_posed}
use kamiroh.App.Parties.{entry_or}
use kamiroh.Common.Assoc.{get, modify, AllEntries, AllEntries-get, AllEntries-modify}
use kamiroh.Common.{
  [], ◌∷◌, none, some, ok, err, true, false, ℕ, Bool, Option, List, inl, inr, ◌⊎◌, ◌≡◌, refl, ite,
  ◌++◌, arith, Option-cases,
}
use kamiroh.Domain.Address.{Address, Address-discrete}
use kamiroh.Domain.Deadline.{turn_wait}
use kamiroh.Domain.TurnState.{
  TurnState, idle, awaiting_their_turn, owe_them, failed, on_incoming, on_outgoing, fail,
  TurnProgress, continuing, TurnError,
}
use kamiroh.Domain.Vocabulary.{RequestId, Turn, request_of}

abbrev pub Spawned : Report → List Report → Type 0
Spawned x [] = ⊥
Spawned x (y ∷ ys) = (y ≡ x) ⊎ Spawned x ys

abbrev pub turn_report : Address → ℕ → Report
turn_report peer epoch = record { peer = peer; kind = turn_wait; ack_id = none; epoch = epoch }

Spawned-left : (x : Report) (ts us : List Report) → Spawned x ts → Spawned x (ts ++ us)
Spawned-left x [] us h = absurd h
Spawned-left x (t ∷ ts) us (inl e) = inl e
Spawned-left x (t ∷ ts) us (inr h) = inr (Spawned-left x ts us h)

Spawned-right : (x : Report) (ts us : List Report) → Spawned x us → Spawned x (ts ++ us)
Spawned-right x [] us h = h
Spawned-right x (t ∷ ts) us h = inr (Spawned-right x ts us h)

-- While the peer's turn is awaited a handle is held, the timer of the current epoch was spawned,
-- and an ack that is waited for is that of the outstanding request; at any other time no wait is
-- armed.
abbrev BackedAt : TurnState → Option RequestId → Bool → List Report → Address → ℕ → Type 0
BackedAt (awaiting_their_turn o) none true ts peer e = Spawned (turn_report peer e) ts
BackedAt (awaiting_their_turn o) (some id) true ts peer e =
    (id ≡ o) × Spawned (turn_report peer e) ts
BackedAt (awaiting_their_turn o) ack false ts peer e = ⊥
BackedAt idle none false ts peer e = Unit
BackedAt (owe_them o) none false ts peer e = Unit
BackedAt failed none false ts peer e = Unit
BackedAt _ _ _ ts peer e = ⊥

abbrev pub Backed : List Report → Address → PeerWaits → Type 0
Backed ts peer ws = BackedAt ws.state ws.ack ws.turn ts peer ws.epoch

abbrev pub AllBacked : List Report → List (Address × PeerWaits) → Type 0
AllBacked ts m = AllEntries (λ peer ws. Backed ts peer ws) m

Backed-more :
    (ts us : List Report) (peer : Address) (ws : PeerWaits)
    → Backed ts peer ws
    → Backed (ts ++ us) peer ws
Backed-more ts us peer ws h = ground (arith, Spawned-left (turn_report peer ws.epoch) ts us)

pub AllBacked-more :
    (ts us : List Report) (m : List (Address × PeerWaits)) → AllBacked ts m → AllBacked (ts ++ us) m
AllBacked-more ts us [] h = tt
AllBacked-more ts us ((peer, ws) ∷ m) h =
    (Backed-more ts us peer ws h.0, AllBacked-more ts us m h.1)

failed_waits-Backed :
    (ts : List Report) (peer : Address) (ws : PeerWaits) → Backed ts peer (failed_waits ws)
unfolding failed_waits settle_all fail
failed_waits-Backed ts peer ws = ground arith

pub settle_ack-Backed :
    (ts : List Report) (peer : Address) (id : RequestId) (ws : PeerWaits)
    → Backed ts peer ws
    → Backed ts peer (settle_ack id ws)
unfolding settle_ack
settle_ack-Backed ts peer id ws h = ground arith

-- What a turn of the peer leaves.
pub heard-Backed :
    (ts : List Report) (peer : Address) (ws : PeerWaits) (t : Turn) {s : TurnState}
    {p : TurnProgress}
    → on_incoming ws.state t ≡ (s, ok p)
    → Backed ts peer (settle_all (record ws { state = s }))
unfolding on_incoming settle_all
heard-Backed ts peer ws t h = ground arith

pub refused-Backed :
    (ts : List Report) (peer : Address) (ws : PeerWaits) (t : Turn) {s : TurnState} {e : TurnError}
    → Backed ts peer ws
    → on_incoming ws.state t ≡ (s, err e)
    → Backed ts peer (record ws { state = s })
unfolding on_incoming
refused-Backed ts peer ws t i h = ground arith

-- What an armed reply leaves.
abbrev pub armed_waits : PeerWaits → TurnState → Turn → TurnProgress → PeerWaits
armed_waits ws s t progress = record {
  state = s;
  ack = ack_armed (id_posed t) ws.ack;
  turn = is_continuing progress;
  epoch = next_epoch ws.epoch;
}

Spawned-turn :
    (peer : Address) (e : ℕ) (ts : List Report)
    → Spawned (turn_report peer e) (ts ++ turn_task peer e continuing)
unfolding turn_task
Spawned-turn peer e ts =
    Spawned-right (turn_report peer e) ts (turn_task peer e continuing) (inl refl)

pub armed-Backed :
    (ts : List Report) (peer : Address) (ws : PeerWaits) (t : Turn) {s : TurnState}
    {progress : TurnProgress}
    → Backed ts peer ws
    → on_outgoing ws.state t ≡ (s, ok progress)
    → Backed
        ((ts ++ ack_task peer (next_epoch ws.epoch) (id_posed t))
          ++ turn_task peer (next_epoch ws.epoch) progress)
        peer
        (armed_waits ws s t progress)
unfolding on_outgoing request_of
armed-Backed ts peer ws t i h = ground (
  arith,
  Spawned-turn peer (next_epoch ws.epoch) (ts ++ ack_task peer (next_epoch ws.epoch) (id_posed t)),
)

pub waits_of-Backed :
    (ts : List Report) (peer : Address) (m : List (Address × PeerWaits))
    → AllBacked ts m
    → Backed ts peer (entry_or peer no_waits m)
waits_of-Backed ts peer m h = elim (Option-cases (get Address-discrete peer m)) [
  | inl e ↦ rw (e, entry_or) tt
  | inr (ws, e) ↦
      rw (e, entry_or) (AllEntries-get Address-discrete (λ p x. Backed ts p x) peer m h e)
]

-- A failure, whatever stood at the conversation that fails.
pub failed-AllBacked :
    (ts : List Report) (peer : Address) (m : List (Address × PeerWaits))
    → AllEntries (λ p ws. (p ≡ peer) ⊎ Backed ts p ws) m
    → AllBacked ts (modify Address-discrete peer failed_waits m)
failed-AllBacked ts peer m h =
    AllEntries-modify Address-discrete (λ p ws. (p ≡ peer) ⊎ Backed ts p ws)
      (λ p ws. Backed ts p ws) peer failed_waits m (λ p ws k. one p ws k (Address-discrete p peer))
      h
  where
    one :
        (p : Address) (ws : PeerWaits)
        → (p ≡ peer) ⊎ Backed ts p ws
        → (x : Dec (p ≡ peer)) → Backed ts p (ite x (failed_waits ws) ws)
    one p ws k (yes e) = failed_waits-Backed ts p ws
    one p ws (inl e) (no ne) = absurd (ne e)
    one p ws (inr b) (no ne) = b

pub AllBacked-but :
    (ts : List Report) (peer : Address) (m : List (Address × PeerWaits))
    → AllBacked ts m
    → AllEntries (λ p ws. (p ≡ peer) ⊎ Backed ts p ws) m
AllBacked-but ts peer [] h = tt
AllBacked-but ts peer ((p, ws) ∷ m) h = (inr h.0, AllBacked-but ts peer m h.1)
