-- ===== src/Iroh/Retried.antt =====
-- crates/kamiroh-adapter-iroh/src/lib.rs: stale connections, and what is refused.
use kamiroh.Common.{
  refl, ap, subst, none, some, ok, err, true, false, zero, suc, Result, arith, ltb, ◌∙◌, Bool,
}
use kamiroh.Iroh.Shared.{Shared}
use kamiroh.Iroh.Sending.{send_encoded, attempts, attempt, connection_to, send_frame, dial, send}
use kamiroh.Common.{some, ok, err, List, ℕ, ◌≡◌, none, true, false, subst, ap, ◌≢◌, Text}
use kamiroh.Iroh.External.{External}
use kamiroh.Domain.Address.{EndpointId, EndpointId-discrete, Address}
use kamiroh.Iroh.Frame.{Frame, single}
use kamiroh.Iroh.Errors.{IrohTransportError, not_our_endpoint, encode_error, unknown_peer}
use kamiroh.Common.Assoc.{get}
use kamiroh.Iroh.Verdicts.{dial-caches}
use kamiroh.Domain.Vocabulary.{Message}

module _ (E : External) where
  -- The state after a frame was written to a connection.
  abbrev written : Shared E → E.Connection → List ℕ → Shared E
  written s c bytes = record s { endpoint = (send_frame E s.endpoint c bytes).0 }

  -- What `attempt` does with the connection that `connection_to` gives.
  attempt-connected :
      (s t : Shared E) (peer : EndpointId) (bytes : List ℕ) (force_fresh : Bool) (c : E.Connection)
      → connection_to E s peer force_fresh ≡ (t, ok c)
      → attempt E s peer bytes force_fresh
        ≡ (written t c bytes, ok (send_frame E t.endpoint c bytes).1)
  unfolding attempt
  attempt-connected s t peer bytes force_fresh c p =
      ap
        (λ x. elim x.1 [
          | err e ↦ (x.0, err e)
          | ok j ↦ (written x.0 j bytes, ok (send_frame E x.0.endpoint j bytes).1)
        ])
        p

  connection_to-cached :
      (s : Shared E) (peer : EndpointId) (c : E.Connection)
      → get EndpointId-discrete peer s.connections ≡ some c
      → connection_to E s peer false ≡ (s, ok c)
  unfolding connection_to
  connection_to-cached s peer c p = rw (p, connection_to) refl

  connection_to-fresh :
      (s : Shared E) (peer : EndpointId) → connection_to E s peer true ≡ dial E s peer
  unfolding connection_to
  connection_to-fresh s peer = refl

  attempts-again :
      (more i : ℕ) (s t : Shared E) (peer : EndpointId) (bytes : List ℕ) (e : IrohTransportError)
      → attempt E s peer bytes (ltb 0 i) ≡ (t, ok (err e))
      → attempts E (suc more) i s peer bytes ≡ attempts E more (suc i) t peer bytes
  unfolding attempts
  attempts-again more i s t peer bytes e p =
      ap
        (λ x. elim x.1 [
          | err u ↦ (x.0, err u)
          | ok (ok u) ↦ (x.0, ok tt)
          | ok (err u) ↦ attempts E more (suc i) x.0 peer bytes
        ])
        p

  attempts-last :
      (i : ℕ) (s t : Shared E) (peer : EndpointId) (bytes : List ℕ)
      (r : Result (Unit {0}) IrohTransportError)
      → attempt E s peer bytes (ltb 0 i) ≡ (t, ok r)
      → attempts E zero i s peer bytes ≡ (t, r)
  unfolding attempts
  attempts-last i s t peer bytes r p =
      ap (λ x. elim x.1 [ err e ↦ (x.0, err e) | ok sent ↦ (x.0, sent) ]) p

  -- A send over a cached connection that has gone stale dials the peer again, and what the new
  -- connection says is the answer: the frame goes over it, and it takes the old one's place in the
  -- cache.
  pub send_encoded_redials :
      (s t : Shared E) (peer : EndpointId) (frame : Frame) (bytes : List ℕ) (stale c : E.Connection)
      (e : IrohTransportError)
      → E.to_stdvec frame ≡ ok bytes
      → get EndpointId-discrete peer s.connections ≡ some stale
      → (send_frame E s.endpoint stale bytes).1 ≡ err e
      → dial E (record s { endpoint = (send_frame E s.endpoint stale bytes).0 }) peer ≡ (t, ok c)
      → (send_encoded E s peer frame ≡ (
        record t { endpoint = (send_frame E t.endpoint c bytes).0 },
        (send_frame E t.endpoint c bytes).1,
      ))
        × (get EndpointId-discrete peer t.connections ≡ some c)
  unfolding send_encoded attempts
  send_encoded_redials s t peer frame bytes stale c e p q failed dialed =
      let s' = written s stale bytes in
      let first : attempt E s peer bytes (ltb 0 0) ≡ (s', ok (err e)) =
        attempt-connected s s peer bytes false stale (connection_to-cached s peer stale q)
        ∙ ap (λ r. (s', ok r)) failed in
      let second =
        attempts-last 1 s' (written t c bytes) peer bytes _
          (attempt-connected s' t peer bytes true c (connection_to-fresh s' peer ∙ dialed)) in
      (
        rw (p, send_encoded) (attempts-again 0 0 s s' peer bytes e first ∙ second),
        subst (λ x. get EndpointId-discrete peer x.connections ≡ some c) (ap (λ x. x.0) dialed)
            (dial-caches E s' peer c (ap (λ x. x.1) dialed)),
      )

  pub send_refused :
      (s : Shared E) (foreign from to : Address) (m bad : Message) (bytes : List ℕ) (e : Text)
      → foreign.endpoint ≢ s.endpoint_id
      → from.endpoint ≡ s.endpoint_id
      → E.to_stdvec (single from.name to.name bad) ≡ err e
      → E.to_stdvec (single from.name to.name m) ≡ ok bytes
      → get EndpointId-discrete to.endpoint s.connections ≡ none
      → get EndpointId-discrete to.endpoint s.peers ≡ none
      → (send E s foreign to m ≡ (s, err not_our_endpoint))
        × (send E s from to bad ≡ (s, err (encode_error e)))
        × (send E s from to m ≡ (s, err unknown_peer))
  unfolding send send_encoded attempts attempt connection_to dial
  send_refused s foreign from to m bad bytes e ne here p b q u = (
    ground (arith, ne),
    rw (send, send_encoded, p) (ground (arith, here)),
    ground (arith, here, b, q, u),
  )
