-- ===== src/App/Parties/Echo.antt =====
-- crates/kamiroh-app/src/parties.rs: the echo party.
use kamiroh.Common.Assoc.{get, get-insert, get-modify}
use kamiroh.Domain.TurnState.{fail, on_outgoing, on_incoming, is_live, idle}
use kamiroh.Common.{none, some, false, ◌≢◌, arith, ◌≡◌}
use kamiroh.App.Parties.{echo_on_exchange_failed, echo_on_turn, EchoParty, entry_or, put}
use kamiroh.Domain.Vocabulary.{request_of, Request, Turn, open_turn, close_turn}
use kamiroh.Domain.Address.{Address, Address-discrete}
use kamiroh.Domain.Deadline.{FailureCause}

-- The `expect` of the echo party never panics, whatever turn comes from whatever peer in whatever
-- state its shadow machines are.
pub echo_on_turn_total : (p : EchoParty) (from : Address) (t : Turn) → echo_on_turn p from t ≢ none
unfolding echo_on_turn on_incoming on_outgoing request_of
echo_on_turn_total p from t h = ground arith

-- With no exchange live with a peer, an `Open` is answered by a `Close` that carries the request's
-- id and body, the exchange with that peer is over, and no other peer's machine is touched.
pub echo_on_turn_lem :
    (p : EchoParty) (from other : Address) (q : Request)
    → is_live (entry_or from idle p.states) ≡ false
    → from ≢ other
    → (p' : EchoParty) × (echo_on_turn p from (open_turn q)
        ≡ some (p', some (close_turn (record { id = q.id; body = q.body }))))
      × (entry_or from idle p'.states ≡ idle)
      × (get Address-discrete other p'.states ≡ get Address-discrete other p.states)
unfolding echo_on_turn on_incoming on_outgoing request_of is_live
echo_on_turn_lem p from other q h ne = (
  record { states = put from idle p.states },
  ground arith,
  ground (arith, get-insert Address-discrete from from idle p.states),
  ground (arith, get-insert Address-discrete from other idle p.states),
)

-- The failure of one peer's exchange fails that peer's live machine and leaves every other
-- peer's as it was.
pub echo_on_exchange_failed_lem :
    (p : EchoParty) (from other : Address) (cause : FailureCause)
    → from ≢ other
    → let p' = echo_on_exchange_failed p from cause in
      (is_live (entry_or from idle p'.states) ≡ false)
      × (get Address-discrete other p'.states ≡ get Address-discrete other p.states)
unfolding echo_on_exchange_failed fail is_live
echo_on_exchange_failed_lem p from other cause ne = (
  ground (arith, get-modify Address-discrete from from (λ s. (fail s).0) p.states),
  ground (arith, get-modify Address-discrete from other (λ s. (fail s).0) p.states),
)
