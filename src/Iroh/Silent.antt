-- ===== src/Iroh/Silent.antt =====
-- crates/kamiroh-adapter-iroh/src/lib.rs: what a peer can learn of the names that are bound.
use kamiroh.Iroh.Shared.{Shared, Serving}
use kamiroh.Iroh.Reading.{
  read_one, read_frame, take_frame, fan_in, route, send_receipt, opening, read_for, batch_receipt,
}
use kamiroh.Common.{
  [], ◌∷◌, none, some, ok, err, inl, inr, true, false, zero, suc, ℕ, ◌≡◌, Bool, Option,
  Option-cases, ◌∙◌, List, ap₂, refl, Result-cases, sym, Bool-cases,
}
use kamiroh.Iroh.External.{External}
use kamiroh.Domain.Address.{Address, EndpointId, ActorName, ActorName-discrete}
use kamiroh.Ports.{Delivery}
use kamiroh.Iroh.Frame.{Frame, single, open_many_frame}
use kamiroh.Domain.Vocabulary.{Request}
use kamiroh.Common.Assoc.{get}
use kamiroh.Iroh.Sending.{send_frame}

module _ (E : External) where
  -- What a frame does to the network.
  abbrev answered : E.Endpoint → EndpointId → E.Connection → Frame → E.Endpoint
  answered n here c (single from_name to_name m) = n
  answered n here c (open_many_frame from_name to_names q) =
      elim (E.to_stdvec (batch_receipt E here from_name q)) [
        | err e ↦ n
        | ok bytes ↦ (send_frame E n c bytes).0
      ]

  abbrev answered_some : E.Endpoint → EndpointId → E.Connection → Option Frame → E.Endpoint
  answered_some n here c none = n
  answered_some n here c (some f) = answered n here c f

  -- What one turn of a reader does to the network, and whether the reader goes on.
  abbrev answered_one : E.Endpoint → EndpointId → E.Connection → E.Endpoint × Bool
  answered_one n here c =
      let (n1, opened) = E.accept_uni n c in
      elim opened [
        | none ↦ (n1, false)
        | some stream ↦
            let (n2, read) = read_frame E n1 stream in (answered_some n2 here c read, true)
      ]

  abbrev answered_for : ℕ → E.Endpoint → EndpointId → E.Connection → E.Endpoint
  answered_for zero n here c = n
  answered_for (suc i) n here c =
      let (n', more) = answered_one n here c in
      elim more [ false ↦ n' | true ↦ answered_for i n' here c ]

  -- Two states in which the network and this endpoint's identity are the given ones.
  abbrev OnWire : Shared E → E.Endpoint → EndpointId → Type 0
  OnWire s n here = (s.endpoint ≡ n) × (s.endpoint_id ≡ here)

  route-OnWire : (s : Shared E) (d : Delivery) → OnWire (route E s d) s.endpoint s.endpoint_id
  unfolding route
  route-OnWire s d = elim (Option-cases (get ActorName-discrete d.to.name s.bound)) [
    | inl p ↦ rw (p, route) (refl, refl)
    | inr (c, p) ↦ rw (p, route) (refl, refl)
  ]

  fan_in-OnWire :
      (s : Shared E) (from : Address) (q : Request) (names : List ActorName)
      → OnWire (fan_in E s from q names) s.endpoint s.endpoint_id
  unfolding fan_in
  fan_in-OnWire s from q [] = (refl, refl)
  fan_in-OnWire s from q (name ∷ names) =
      let d = opening from s.endpoint_id q name in
      let first = route-OnWire s d in
      let rest = fan_in-OnWire (route E s d) from q names in (rest.0 ∙ first.0, rest.1 ∙ first.1)

  take_frame-OnWire :
      (s : Shared E) (r : Serving E) (f : Frame)
      → OnWire (take_frame E s r f) (answered s.endpoint s.endpoint_id r.connection f) s.endpoint_id
  unfolding take_frame send_receipt
  take_frame-OnWire s r (single from_name to_name m) = route-OnWire s _
  take_frame-OnWire s r (open_many_frame from_name to_names q) =
      elim (Result-cases (E.to_stdvec (batch_receipt E s.endpoint_id from_name q))) [
        | inl (bytes, p) ↦ rw (p, take_frame, send_receipt, answered) (fan_in-OnWire _ _ q to_names)
        | inr (e, p) ↦ rw (p, take_frame, send_receipt, answered) (fan_in-OnWire s _ q to_names)
      ]

  read_one-OnWire :
      (s : Shared E) (r : Serving E)
      → OnWire
          (read_one E s r).0
          (answered_one s.endpoint s.endpoint_id r.connection).0
          s.endpoint_id
        × ((read_one E s r).1 ≡ (answered_one s.endpoint s.endpoint_id r.connection).1)
  unfolding read_one
  read_one-OnWire s r =
      let (n1, opened) = E.accept_uni s.endpoint r.connection in
      elim (Option-cases opened) [
        | inl p ↦ rw (p, read_one, answered_one) ((refl, refl), refl)
        | inr (stream, p) ↦
            let (n2, read) = read_frame E n1 stream in
            elim (Option-cases read) [
              | inl q ↦ rw (p, q, read_one, answered_one) ((refl, refl), refl)
              | inr (f, q) ↦
                  rw (p, q, read_one, answered_one)
                    (take_frame-OnWire (record s { endpoint = n2 }) r f, refl)
            ]
      ]

  read_for-answered :
      (i : ℕ) (s : Shared E) (r : Serving E)
      → (read_for E i s r).endpoint ≡ answered_for i s.endpoint s.endpoint_id r.connection
  unfolding read_for
  read_for-answered zero s r = refl
  read_for-answered (suc i) s r =
      let (s', more) = read_one E s r in
      let (n', _) = answered_one s.endpoint s.endpoint_id r.connection in
      let (wire, goes_on) = read_one-OnWire s r in
      let rest : (read_for E i s' r).endpoint ≡ answered_for i n' s.endpoint_id r.connection =
        read_for-answered i s' r
        ∙ ap₂ (λ n here. answered_for i n here r.connection) wire.0 wire.1 in
      elim (Bool-cases (answered_one s.endpoint s.endpoint_id r.connection).1) [
        | inl q ↦ rw (goes_on, q, read_for, answered_for) rest
        | inr q ↦ rw (goes_on, q, read_for, answered_for) wire.0
      ]

  -- A peer learns nothing of the names that are bound here: two states of a net that differ in
  -- their bindings, inboxes and tables, but not in the network and in whose net it is, answer the
  -- same, however many frames of one connection they read.
  pub read_for_blind :
      (i : ℕ) (s t : Shared E) (r : Serving E)
      → s.endpoint ≡ t.endpoint
      → s.endpoint_id ≡ t.endpoint_id
      → (read_for E i s r).endpoint ≡ (read_for E i t r).endpoint
  read_for_blind i s t r p q =
      read_for-answered i s r
      ∙ ap₂ (λ n here. answered_for i n here r.connection) p q
      ∙ sym (read_for-answered i t r)
