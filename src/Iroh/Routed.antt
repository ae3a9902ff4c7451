-- ===== src/Iroh/Routed.antt =====
-- crates/kamiroh-adapter-iroh/src/lib.rs: what waits in the channels has an origin.
use kamiroh.Iroh.Shared.{Shared, Serving}
use kamiroh.Iroh.Net.{bind, is_bound, drop_inbox, next}
use kamiroh.Iroh.Sending.{send_frame}
use kamiroh.Common.{
  [], ◌∷◌, inl, inr, Bool-cases, List, Option-cases, ◌≡◌, same, ◌++◌, Result-cases, true, arith,
  All, any, refl, All-snoc, same_refl,
}
use kamiroh.Iroh.External.{External}
use kamiroh.Iroh.Laws.{Queues}
use kamiroh.Iroh.Proven.{IsProven, endpoint-IsProven, HasOrigin}
use kamiroh.Iroh.Reading.{
  fan_in, read_one, route, send_receipt, take_frame, opening, batch_receipt, read_frame,
}
use kamiroh.Domain.Address.{ActorName, Address, EndpointId, ActorName-discrete, EndpointId-discrete}
use kamiroh.Ports.{Delivery}
use kamiroh.Iroh.Frame.{Frame, single, open_many_frame}
use kamiroh.Domain.Vocabulary.{Request}
use kamiroh.Common.Assoc.{get}

module _ (E : External) (Q : Queues E) where
  -- A change of the channels that keeps the origin of what waits.
  channels-IsProven :
      (s : Shared E) (k : E.Channels) (b : List (ActorName × E.Channel))
      → IsProven E Q s
      → ((c : E.Channel)
          → All (HasOrigin E s.readers s.endpoint_id) (Q.waiting s.channels c)
          → All (HasOrigin E s.readers s.endpoint_id) (Q.waiting k c))
      → IsProven E Q (record s { channels = k; bound = b })
  unfolding IsProven
  channels-IsProven s k b h keep = (h.0, h.1, h.2, h.3, λ c. keep c (h.4 c))

  pub bind-IsProven : (s : Shared E) (a : Address) → IsProven E Q s → IsProven E Q (bind E s a).0
  unfolding bind
  bind-IsProven s a h = elim (Bool-cases (same EndpointId-discrete a.endpoint s.endpoint_id)) [
    | inr p ↦ rw (p, bind) h
    | inl p ↦ elim (Bool-cases (is_bound E s a.name)) [
      | inl q ↦ rw (p, q, bind) h
      | inr q ↦
          rw (p, q, bind)
            (channels-IsProven s _ _ h
              λ c u. elim (Q.new_waiting s.channels c) [ inl e ↦ rw e u | inr e ↦ rw e tt ])
    ]
  ]

  pub next-IsProven : (s : Shared E) (c : E.Channel) → IsProven E Q s → IsProven E Q (next E s c).0
  unfolding next
  next-IsProven s c h =
      channels-IsProven s _ s.bound h
        λ j u. elim (Q.received s.channels c j) [ inl e ↦ rw e u | inr (d, e) ↦ (rw e at u).1 ]

  pub drop_inbox-IsProven :
      (s : Shared E) (c : E.Channel) → IsProven E Q s → IsProven E Q (drop_inbox E s c)
  unfolding drop_inbox
  drop_inbox-IsProven s c h =
      channels-IsProven s _ s.bound h
        λ j u. elim (Q.dropped_waiting s.channels c j) [ inl e ↦ rw e u | inr e ↦ rw e tt ]

  route-IsProven :
      (s : Shared E) (d : Delivery)
      → HasOrigin E s.readers s.endpoint_id d
      → IsProven E Q s
      → IsProven E Q (route E s d)
  unfolding route
  route-IsProven s d o h = elim (Option-cases (get ActorName-discrete d.to.name s.bound)) [
    | inl p ↦ rw (p, route) h
    | inr (c, p) ↦
        rw (p, route)
          (channels-IsProven s _ s.bound h λ j u. elim (Q.sent s.channels c j d) [
            | inl e ↦ rw e u
            | inr e ↦ rw e (All-snoc _ _ d u o)
          ])
  ]

  route-tables :
      (s : Shared E) (d : Delivery)
      → ((route E s d).readers ≡ s.readers) × ((route E s d).endpoint_id ≡ s.endpoint_id)
  unfolding route
  route-tables s d = elim (Option-cases (get ActorName-discrete d.to.name s.bound)) [
    | inl p ↦ rw (p, route) (refl, refl)
    | inr (c, p) ↦ rw (p, route) (refl, refl)
  ]

  -- The origin of a reader.
  abbrev IsReader : Shared E → EndpointId → Type 0
  IsReader s e = any (λ r. same EndpointId-discrete r.origin e) s.readers ≡ true

  fan_in-IsProven :
      (s : Shared E) (from : Address) (q : Request) (names : List ActorName)
      → IsReader s from.endpoint
      → IsProven E Q s
      → IsProven E Q (fan_in E s from q names)
  unfolding fan_in opening
  fan_in-IsProven s from q [] o h = h
  fan_in-IsProven s from q (name ∷ names) o h =
      let d = opening from s.endpoint_id q name in
      fan_in-IsProven (route E s d) from q names (rw (route-tables s d).0 o)
        (route-IsProven s d (o, refl) h)

  send_receipt-IsProven :
      (s : Shared E) (c : E.Connection) (name : ActorName) (q : Request) (e : EndpointId)
      → IsReader s e × IsProven E Q s
      → IsReader (send_receipt E s c name q) e × IsProven E Q (send_receipt E s c name q)
  unfolding send_receipt
  send_receipt-IsProven s c name q e (o, h) =
      elim (Result-cases (E.to_stdvec (batch_receipt E s.endpoint_id name q))) [
        | inl (bytes, p) ↦
            rw (p, send_receipt) (o, endpoint-IsProven E Q s (send_frame E s.endpoint c bytes).0 h)
        | inr (e, p) ↦ rw (p, send_receipt) (o, h)
      ]

  take_frame-IsProven :
      (s : Shared E) (r : Serving E) (f : Frame)
      → IsReader s r.origin
      → IsProven E Q s
      → IsProven E Q (take_frame E s r f)
  unfolding take_frame
  take_frame-IsProven s r (single from_name to_name m) o h = route-IsProven s _ (o, refl) h
  take_frame-IsProven s r (open_many_frame from_name to_names q) o h =
      let (o', h') = send_receipt-IsProven s r.connection from_name q r.origin (o, h) in
      fan_in-IsProven _ _ q to_names o' h'

  pub read_one-IsProven :
      (s : Shared E) (r : Serving E)
      → IsReader s r.origin
      → IsProven E Q s
      → IsProven E Q (read_one E s r).0
  unfolding read_one
  read_one-IsProven s r o h =
      let (n1, opened) = E.accept_uni s.endpoint r.connection in
      elim (Option-cases opened) [
        | inl p ↦ rw (p, read_one) (endpoint-IsProven E Q s n1 h)
        | inr (stream, p) ↦
            let (n2, read) = read_frame E n1 stream in
            let next = endpoint-IsProven E Q s n2 h in
            elim (Option-cases read) [
              | inl q ↦ rw (p, q, read_one) next
              | inr (f, q) ↦
                  rw (p, q, read_one) (take_frame-IsProven (record s { endpoint = n2 }) r f o next)
            ]
      ]

  -- A task of a list is found there.
  pub any-middle :
      (before : List (Serving E)) (r : Serving E) (after : List (Serving E))
      → any (λ x. same EndpointId-discrete x.origin r.origin) (before ++ r ∷ after) ≡ true
  any-middle [] r after = rw (same_refl EndpointId-discrete r.origin) refl
  any-middle (x ∷ before) r after = ground (arith, any-middle before r after)
