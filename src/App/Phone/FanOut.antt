-- ===== src/App/Phone/FanOut.antt =====
-- crates/kamiroh-app/src/phone.rs: phones born of one batch.
use kamiroh.Common.{[], ◌∷◌, ok, ◌≡◌, List, err, Text, ap, map, refl, arith}
use kamiroh.Ports.{Transport, Timer}
use kamiroh.Domain.Address.{Address, EndpointId, ActorName}
use kamiroh.Domain.Vocabulary.{Message, Request, request_of, turn_message, open_turn}
use kamiroh.Domain.Deadline.{Deadlines}
use kamiroh.App.Phone.{Phone, open_exchange, open_many, converse, born, transport_failed}
use kamiroh.Domain.TurnState.{on_outgoing}

module _ {S : Type 0} (net : Transport S) (timer : Timer S) where
  -- One phone for each name, each opened on its own at the world `w'`.
  unfoldable pub opened_singly :
      S → Address → EndpointId → Request → Deadlines → List ActorName → List Phone
  opened_singly w' me e q d [] = []
  opened_singly w' me e q d (name ∷ names) =
      (open_exchange net timer w' (converse me (record { endpoint = e; name = name }) d) q).1
      ∷ opened_singly w' me e q d names

  -- The transport carries every message from this address and leaves the clock alone.
  abbrev pub Carries : S → Address → Type 0
  Carries w me =
      (to : Address) (m : Message)
      → ((net.send w me to m).1 ≡ ok tt) × (timer.now (net.send w me to m).0 ≡ timer.now w)

  born_singly :
      (w : S) (me : Address) (e : EndpointId) (q : Request) (d : Deadlines) (name : ActorName)
      → Carries w me
      → born net timer me e q d (timer.now w) name
        ≡ (open_exchange net timer w (converse me (record { endpoint = e; name = name }) d) q).1
  unfolding born open_exchange converse on_outgoing request_of
  born_singly w me e q d name c =
      let to : Address = record { endpoint = e; name = name } in
      ground (arith, c to (turn_message (open_turn q)))

  map-born :
      (w : S) (me : Address) (e : EndpointId) (q : Request) (d : Deadlines) (names : List ActorName)
      → Carries w me
      → map (born net timer me e q d (timer.now w)) names ≡ opened_singly w me e q d names
  unfolding opened_singly
  map-born w me e q d [] c = refl
  map-born w me e q d (name ∷ names) c =
      cc (born_singly w me e q d name c, map-born w me e q d names c)

  -- An accepted batch yields, in the order of the names, the very phones that opening each
  -- conversation on its own yields at that time over a transport that carries the messages.
  pub open_many_singly :
      (w w' : S) (me : Address) (e : EndpointId) (names : List ActorName) (q : Request)
      (d : Deadlines)
      → net.open_many w me e names q ≡ (w', ok tt)
      → Carries w' me
      → open_many net timer w me e names q d ≡ (w', ok (opened_singly w' me e q d names))
  unfolding open_many
  open_many_singly w w' me e names q d h c =
      rw (h, open_many) (ap (λ ps. (w', ok ps)) (map-born w' me e q d names c))

  -- A refused batch creates no phone.
  pub open_many_refused :
      (w w' : S) (me : Address) (e : EndpointId) (names : List ActorName) (q : Request)
      (d : Deadlines) (why : Text)
      → net.open_many w me e names q ≡ (w', err why)
      → open_many net timer w me e names q d ≡ (w', err (transport_failed why))
  unfolding open_many
  open_many_refused w w' me e names q d why h = rw (h, open_many)
