-- ===== src/App/Parties.antt =====
-- crates/kamiroh-app/src/parties.rs: the stock parties, with one shadow machine per peer.
pub mod Rounds
pub mod Echo
use kamiroh.Common.Assoc.{insert, get, modify, get-insert_self}
use kamiroh.Domain.TurnState.{idle, fail, TurnState, on_incoming, on_outgoing}
use kamiroh.Common.{
  [], ◌∷◌, List, Option, ℕ, replicate, some, cond, err, none, ltb, ok, ◌-◌, ◌+◌, ◌%◌, ◌≡◌,
}
use kamiroh.Domain.Address.{Address, Address-discrete}
use kamiroh.Domain.Vocabulary.{
  Request, RequestId, Turn, Response, close_turn, request_of, continue_turn,
}
use kamiroh.Ports.{Party}
use kamiroh.Domain.Deadline.{FailureCause}

pub record EchoParty : Type 0 where
  pub states : List (Address × TurnState)

unfoldable pub new_echo : EchoParty
new_echo = record { states = [] }

-- `entry(k).or_insert(d)`, read.
abbrev pub entry_or : {V : Type 0} → Address → V → List (Address × V) → V
entry_or k d m = elim (get Address-discrete k m) [ none ↦ d | some v ↦ v ]

abbrev pub put : {V : Type 0} → Address → V → List (Address × V) → List (Address × V)
put = insert Address-discrete

pub entry_or-put :
    {V : Type 0} (k : Address) (d v : V) (m : List (Address × V)) → entry_or k d (put k v m) ≡ v
entry_or-put k d v m = rw (get-insert_self Address-discrete k v m, entry_or)

abbrev pub echo_of : Request → Turn
echo_of q = close_turn (record { id = q.id; body = q.body })

-- The party after one turn, and its reply; `none` is the panic of an `expect`.
echo_reply : EchoParty → Address → TurnState → Turn → Option (EchoParty × Option Turn)
echo_reply p from s reply =
    let (s', outcome) = on_outgoing s reply in
    elim outcome [
      | err e ↦ none
      | ok progress ↦ some (record { states = put from s' p.states }, some reply)
    ]

unfoldable pub echo_on_turn : EchoParty → Address → Turn → Option (EchoParty × Option Turn)
unfolding echo_reply
echo_on_turn p from t =
    let (s, outcome) = on_incoming (entry_or from idle p.states) t in
    let quiet : Option (EchoParty × Option Turn) =
      some (record { states = put from s p.states }, none) in
    elim outcome [
      | err e ↦ quiet
      | ok progress ↦ elim (request_of t) [
        | none ↦ quiet
        | some q ↦ echo_reply p from s (echo_of q)
      ]
    ]

unfoldable pub echo_on_exchange_failed : EchoParty → Address → FailureCause → EchoParty
echo_on_exchange_failed p from cause = record {
  states = modify Address-discrete from (λ s. (fail s).0) p.states;
}

pub record Countdown : Type 0 where
  pub state : TurnState
  pub remaining : ℕ  -- u8
  pub next_id : ℕ  -- u8

pub record CountdownParty : Type 0 where
  pub rounds : ℕ  -- u8
  pub peers : List (Address × Countdown)

unfoldable pub new_countdown : ℕ → CountdownParty
new_countdown rounds = record { rounds = rounds; peers = [] }

-- `or_insert_with` of `on_turn`.
abbrev pub fresh : ℕ → Countdown
fresh rounds = record { state = idle; remaining = rounds; next_id = 100 }

-- `RequestId([n; 16])`.
abbrev pub repeated : ℕ → RequestId
repeated n = record { bytes = replicate 16 n }

-- The reply to a request and the counters after it.
abbrev pub next_reply : Countdown → Request → Countdown × Turn
next_reply c q =
    let response : Response = record { id = q.id; body = q.body } in
    cond (ltb 0 c.remaining)
      (
        record c { remaining = c.remaining - 1; next_id = (c.next_id + 1) % 256 },
        continue_turn response (record { id = repeated c.next_id; body = (c.remaining - 1) ∷ [] }),
      )
      (c, close_turn response)

countdown_reply :
    CountdownParty → Address → Countdown → Turn → Option (CountdownParty × Option Turn)
countdown_reply p from c reply =
    let (s', outcome) = on_outgoing c.state reply in
    elim outcome [
      | err e ↦ none
      | ok progress ↦
          some (record p { peers = put from (record c { state = s' }) p.peers }, some reply)
    ]

unfoldable pub countdown_on_turn :
    CountdownParty → Address → Turn → Option (CountdownParty × Option Turn)
unfolding countdown_reply
countdown_on_turn p from t =
    let c : Countdown = entry_or from (fresh p.rounds) p.peers in
    let (s, outcome) = on_incoming c.state t in
    let c' : Countdown = record c { state = s } in
    let quiet : Option (CountdownParty × Option Turn) =
      some (record p { peers = put from c' p.peers }, none) in
    elim outcome [
      | err e ↦ quiet
      | ok progress ↦ elim (request_of t) [
        | none ↦ quiet
        | some q ↦ let (c'', reply) = next_reply c' q in countdown_reply p from c'' reply
      ]
    ]

unfoldable pub countdown_on_exchange_failed :
    CountdownParty → Address → FailureCause → CountdownParty
countdown_on_exchange_failed p from cause = record p {
  peers = modify Address-discrete from (λ c. record c { state = (fail c.state).0 }) p.peers;
}

-- The boxed parties that a runtime holds: the stock ones and an embedding application's own.
pub data DynParty (P : Type 0) : Type 0 where
  echo : EchoParty → DynParty P
  countdown : CountdownParty → DynParty P
  embedded : P → DynParty P

-- A panic ends the turn with no reply.
abbrev no_reply_on_panic : {P A : Type 0} → (A → P) → A → Option (A × Option Turn) → P × Option Turn
no_reply_on_panic box p none = (box p, none)
no_reply_on_panic box p (some (p', reply)) = (box p', reply)

module _ {P : Type 0} (own : Party P) where
  unfoldable pub on_turn_boxed : DynParty P → Address → Turn → DynParty P × Option Turn
  on_turn_boxed (echo p) from t = no_reply_on_panic echo p (echo_on_turn p from t)
  on_turn_boxed (countdown p) from t = no_reply_on_panic countdown p (countdown_on_turn p from t)
  on_turn_boxed (embedded p) from t = let (p', reply) = own.on_turn p from t in (embedded p', reply)

  unfoldable pub on_exchange_failed_boxed : DynParty P → Address → FailureCause → DynParty P
  on_exchange_failed_boxed (echo p) from cause = echo (echo_on_exchange_failed p from cause)
  on_exchange_failed_boxed (countdown p) from cause =
      countdown (countdown_on_exchange_failed p from cause)
  on_exchange_failed_boxed (embedded p) from cause = embedded (own.on_exchange_failed p from cause)
