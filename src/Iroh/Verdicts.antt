-- ===== src/Iroh/Verdicts.antt =====
-- crates/kamiroh-adapter-iroh/src/lib.rs: which closed connections are reported as deaths.
use kamiroh.Iroh.Shared.{Shared, Serving, node_id_to_endpoint_id}
use kamiroh.Iroh.Deaths.{connection_closed, evict}
use kamiroh.Common.{some, ok, inl, inr, ◌≡◌, arith, ◌≢◌, Option-cases, Result-cases, refl}
use kamiroh.Iroh.External.{External}
use kamiroh.Common.Assoc.{get, get-insert_self}
use kamiroh.Iroh.Sending.{dial, cache, watch_connection, spawn_reader}
use kamiroh.Domain.Address.{EndpointId, EndpointId-discrete}
use kamiroh.Iroh.Frame.{alpn}

module _ (E : External) where
  superseded-connection_closed :
      (s : Shared E) (w : Serving E) (cached : E.Connection) (reason : E.ConnectionError)
      → get EndpointId-discrete w.origin s.connections ≡ some cached
      → E.stable_id cached ≢ E.stable_id w.connection
      → connection_closed E s w reason ≡ s
  unfolding connection_closed evict
  superseded-connection_closed s w cached reason p ne = ground (arith, p)

  spawn_reader-connections :
      (s : Shared E) (c : E.Connection) → (spawn_reader E s c).connections ≡ s.connections
  unfolding spawn_reader
  spawn_reader-connections s c = elim (Option-cases (node_id_to_endpoint_id E (E.remote_id c))) [
    | inl p ↦ rw (p, spawn_reader) refl
    | inr (e, p) ↦ rw (p, spawn_reader) refl
  ]

  pub dial-caches :
      (s : Shared E) (peer : EndpointId) (c : E.Connection)
      → (dial E s peer).1 ≡ ok c
      → get EndpointId-discrete peer (dial E s peer).0.connections ≡ some c
  unfolding dial cache watch_connection
  dial-caches s peer c p = elim (Option-cases (get EndpointId-discrete peer s.peers)) [
    | inl q ↦ absurd (ground (arith, rw (q, dial) at p))
    | inr (addr, q) ↦ elim (Result-cases (E.connect s.endpoint addr alpn).1) [
      | inr (e, u) ↦ absurd (ground (arith, rw (q, u, dial) at p))
      | inl (j, u) ↦
          let made : j ≡ c = ground (arith, rw (q, u, dial) at p) in
          rw (q, u, dial, watch_connection)
            (rw
              (spawn_reader-connections
                (cache E (record s { endpoint = (E.connect s.endpoint addr alpn).0 }) peer j) j)
              (rw made (get-insert_self EndpointId-discrete peer c s.connections)))
    ]
  ]

  -- Once a peer has been dialed anew, the end of an older connection to it, whatever its reason,
  -- changes nothing: the new connection stays in the cache, and no death is reported.
  pub dial-connection_closed :
      (s : Shared E) (peer : EndpointId) (old c : E.Connection) (reason : E.ConnectionError)
      → (dial E s peer).1 ≡ ok c
      → E.stable_id c ≢ E.stable_id old
      → connection_closed E (dial E s peer).0 (record { connection = old; origin = peer }) reason
        ≡ (dial E s peer).0
  dial-connection_closed s peer old c reason p ne =
      superseded-connection_closed (dial E s peer).0 _ c reason (dial-caches s peer c p) ne
