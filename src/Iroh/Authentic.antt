-- ===== src/Iroh/Authentic.antt =====
-- crates/kamiroh-adapter-iroh/src/lib.rs: origin is proven, and so is the addressee.
use kamiroh.Iroh.Shared.{Shared, node_id_to_endpoint_id}
use kamiroh.Iroh.Steps.{Reach}
use kamiroh.Iroh.Frame.{alpn}
use kamiroh.Common.{
  [], some, ok, inl, inr, true, false, refl, All, Bool, ◌≡◌, Option-cases, arith, Result-cases,
}
use kamiroh.Iroh.External.{External}
use kamiroh.Iroh.Laws.{Queues, Authenticates}
use kamiroh.Iroh.Sending.{connection_to, dial}
use kamiroh.Iroh.Proven.{IsProven, HasOrigin, IsKeyOf, ServesOrigin, cached-IsKeyOf, dialed-IsKeyOf}
use kamiroh.Domain.Address.{EndpointId, EndpointId-discrete}
use kamiroh.Iroh.Reached.{Reach-IsProven}
use kamiroh.Common.Assoc.{get}
use kamiroh.Iroh.Frame.{alpn}

module _ (E : External) where
  -- The view in which nothing waits, for what is not about deliveries.
  abbrev blind : Queues E
  blind = record {
    waiting = λ k c. [];
    waiting_none = λ c. refl;
    new_waiting = λ k c. inl refl;
    sent = λ k c j d. inl refl;
    received = λ k c j. inl refl;
    dropped_waiting = λ k c j. inl refl;
  }

  dial-IsKeyOf :
      Authenticates E
      → (s : Shared E) (peer : EndpointId) (c : E.Connection) → IsProven E blind s
      → (dial E s peer).1 ≡ ok c
      → IsKeyOf E peer (E.remote_id c)
  unfolding dial
  dial-IsKeyOf auth s peer c h p = elim (Option-cases (get EndpointId-discrete peer s.peers)) [
    | inl q ↦ absurd (ground (arith, rw (q, dial) at p))
    | inr (addr, q) ↦ elim (Result-cases (E.connect s.endpoint addr alpn).1) [
      | inr (e, u) ↦ absurd (ground (arith, rw (q, u, dial) at p))
      | inl (j, u) ↦
          dialed-IsKeyOf E blind auth s peer addr c h q (ground (arith, u, rw (q, u, dial) at p))
    ]
  ]

  -- When a dialed connection proves the key that was dialed: in every state that a net reaches
  -- through its handles, its tasks and the network, the connection that `connection_to` gives for
  -- a peer, cached or dialed afresh, has a remote key that displays as that peer's endpoint id.
  pub connection_to-IsKeyOf :
      (auth : Authenticates E) {s : Shared E} (reached : Reach E s) (peer : EndpointId)
      (force_fresh : Bool) (c : E.Connection)
      → (connection_to E s peer force_fresh).1 ≡ ok c
      → node_id_to_endpoint_id E (E.remote_id c) ≡ some peer
  unfolding connection_to
  connection_to-IsKeyOf auth {s} reached peer true c p =
      dial-IsKeyOf auth s peer c (Reach-IsProven E blind auth reached) p
  connection_to-IsKeyOf auth {s} reached peer false c p =
      let proven = Reach-IsProven E blind auth reached in
      elim (Option-cases (get EndpointId-discrete peer s.connections)) [
        | inl q ↦ dial-IsKeyOf auth s peer c proven (rw (q, connection_to) at p)
        | inr (j, q) ↦
            cached-IsKeyOf E blind s peer c proven (ground (arith, q, rw (q, connection_to) at p))
      ]

  -- When channels are queues and a dialed connection proves the key that was dialed: in every
  -- state that a net reaches, whatever bytes its peers sent, each delivery that waits for an actor
  -- is to this endpoint, and from an endpoint that is the proven remote key of a connection with a
  -- reader.
  pub waiting-HasOrigin :
      (queues : Queues E) (auth : Authenticates E) {s : Shared E} (reached : Reach E s)
      (c : E.Channel)
      → All (HasOrigin E s.readers s.endpoint_id) (queues.waiting s.channels c)
        × All (ServesOrigin E) s.readers
  unfolding IsProven
  waiting-HasOrigin queues auth reached c =
      let proven = Reach-IsProven E queues auth reached in (proven.4 c, proven.2)
