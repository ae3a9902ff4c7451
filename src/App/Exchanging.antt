-- ===== src/App/Exchanging.antt =====
-- crates/kamiroh-app/src/runtime.rs and crates/kamiroh-adapter-kameo/src/lib.rs: what a hosted
-- actor promises of a turn that it is given, whatever timers its host keeps.
use mathlib.Core.Option
use kamiroh.Common.{sym, ap, refl, [], ◌∷◌, none, some, ok, err, ◌≡◌, ◌∙◌, Result}
use kamiroh.Common.Assoc.{get, get-map_values, map_values}
use kamiroh.Common.Assoc.{modify}
use kamiroh.App.Parties.{DynParty, entry_or, put, on_turn_boxed, on_exchange_failed_boxed}
use kamiroh.Common.{[], ◌∷◌, none, some, ok, err, Option, List, ◌++◌}
use kamiroh.Domain.Address.{Address, Address-discrete}
use kamiroh.Ports.{Transport, Party, Event, exchange_failed_event, illegal_turn_dropped}
use kamiroh.Domain.TurnState.{
  TurnState, on_incoming, on_outgoing, idle, fail, TurnProgress, TurnError,
}
use kamiroh.Domain.Deadline.{FailureCause, send_failed, illegal_reply}
use kamiroh.Domain.Vocabulary.{Message, Turn, turn_message}

abbrev or_else : {V : Type 0} → V → Option V → V
or_else d none = d
or_else d (some v) = v

or_else-map :
    {V W : Type 0} (f : V → W) (d : V) (o : Option V)
    → f (or_else d o) ≡ or_else (f d) (Option.map f o)
or_else-map f d none = refl
or_else-map f d (some v) = refl

-- A part of what stands at a key is what stands there of the parts.
pub entry_or-map_values :
    {V W : Type 0} (f : V → W) (d : V) (k : Address) (m : List (Address × V))
    → f (entry_or k d m) ≡ entry_or k (f d) (map_values Address-discrete f m)
entry_or-map_values f d k m =
    or_else-map f d (get Address-discrete k m)
    ∙ sym (ap (or_else (f d)) (get-map_values Address-discrete f k m))

-- What is seen of a hosted actor.
pub record View (S P : Type 0) : Type 0 where
  pub address : Address
  pub world : S
  pub events : Option (List Event)
  pub party : Option (DynParty P)
  pub states : List (Address × TurnState)

module _ {S P : Type 0} (net : Transport S) (own : Party P) where
  abbrev pub see_event : Event → View S P → View S P
  see_event e v = record v { events = Option.map (λ log. log ++ e ∷ []) v.events }

  abbrev pub see_state : Address → TurnState → View S P → View S P
  see_state peer s v = record v { states = put peer s v.states }

  -- An exchange fails: its machine dies, the party is told, and the event is seen.
  abbrev pub see_failure : Address → FailureCause → View S P → View S P
  see_failure peer cause v = see_event (exchange_failed_event v.address peer cause) (record v {
    states = modify Address-discrete peer (λ s. (fail s).0) v.states;
    party = Option.map (λ p. on_exchange_failed_boxed own p peer cause) v.party;
  })

  -- A reply is sent, and a refused one fails the exchange.
  abbrev pub see_reply : Address → Turn → View S P → View S P
  see_reply peer t v =
      let (w, answer) = net.send v.world v.address peer (turn_message t) in
      elim answer [
        | ok u ↦ record v { world = w }
        | err e ↦ see_failure peer send_failed (record v { world = w })
      ]

  -- A reply of the party: an illegal one fails the exchange.
  abbrev pub see_answer : Address → Option Turn → View S P → View S P
  see_answer peer none v = v
  see_answer peer (some t) v =
      let (s, outcome) = on_outgoing (entry_or peer idle v.states) t in
      elim outcome [
        | err e ↦ see_failure peer illegal_reply (see_state peer s v)
        | ok progress ↦ see_reply peer t (see_state peer s v)
      ]

  abbrev pub see_ack : Address → Option Message → View S P → View S P
  see_ack peer none v = v
  see_ack peer (some ack) v = record v { world = (net.send v.world v.address peer ack).0 }

  abbrev pub see_party : Address → Turn → View S P → View S P × Option Turn
  see_party peer t v = elim v.party [
    | none ↦ (v, none)
    | some p ↦ let (p', reply) = on_turn_boxed own p peer t in (record v { party = some p' }, reply)
  ]

  -- A legal turn is acked, handed to the party, and answered.
  abbrev pub see_legal : Address → Turn → Option Message → View S P → View S P
  see_legal peer t ack v =
      let (v', reply) = see_party peer t (see_ack peer ack v) in see_answer peer reply v'

  -- What follows the answer of the machine to a turn of a peer: an illegal one is dropped and told
  -- at home.
  abbrev pub see_heard :
      Address
      → Turn
      → Option Message
      → TurnState × Result TurnProgress TurnError
      → View S P
      → View S P
  see_heard peer t ack heard v = elim heard.1 [
    | err e ↦ see_event (illegal_turn_dropped peer v.address e) (see_state peer heard.0 v)
    | ok progress ↦ see_legal peer t ack (see_state peer heard.0 v)
  ]

  -- A turn of a peer.
  abbrev pub see_turn : Address → Turn → Option Message → View S P → View S P
  see_turn peer t ack v = see_heard peer t ack (on_incoming (entry_or peer idle v.states) t) v
