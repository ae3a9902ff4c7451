-- ===== src/Iroh/Proven.antt =====
-- crates/kamiroh-adapter-iroh/src/lib.rs: the keys that connections prove, in every table.
use kamiroh.Iroh.Shared.{Shared, Serving, node_id_to_endpoint_id, endpoint_id_to_node_id}
use kamiroh.Common.{
  some, inl, inr, All, Option-cases, Result-cases, ◌≡◌, none, Option, true, false, zero, suc, subst,
  Bool, List, sym, ℕ, ltb, ok, any, same, All-map, arith,
}
use kamiroh.Iroh.External.{External}
use kamiroh.Domain.Address.{EndpointId, EndpointId-discrete}
use kamiroh.Common.Assoc.{
  AllEntries, AllEntries-insert, get, AllEntries-remove, remove, AllEntries-get,
}
use kamiroh.Iroh.Net.{add_peer, add_peer_by_id, close_connection}
use kamiroh.Iroh.Sending.{
  accepted, spawn_reader, watch_connection, cache, dial, attempt, attempts, connection_to,
  send_encoded, send_frame,
}
use kamiroh.Iroh.Laws.{Authenticates, Queues}
use kamiroh.Iroh.Frame.{alpn, Frame}
use kamiroh.Ports.{Delivery}

module _ (E : External) where
  abbrev pub IsKeyOf : EndpointId → E.NodeId → Type 0
  IsKeyOf e id = node_id_to_endpoint_id E id ≡ some e

  abbrev pub ServesOrigin : Serving E → Type 0
  ServesOrigin r = IsKeyOf r.origin (E.remote_id r.connection)

  -- A delivery whose sender is at an endpoint that a reader's connection proves, to this endpoint.
  abbrev pub HasOrigin : List (Serving E) → EndpointId → Delivery → Type 0
  HasOrigin readers here d =
      (any (λ r. same EndpointId-discrete r.origin d.from.endpoint) readers ≡ true)
      × (d.to.endpoint ≡ here)

module _ (E : External) (Q : Queues E) where
  -- Every entry of the peer book, of the cache and of the tasks is under the key that it proves,
  -- and every delivery that waits has an origin.
  unfoldable pub IsProven : Shared E → Type 0
  IsProven s =
      AllEntries (λ e addr. IsKeyOf E e (E.addr_id addr)) s.peers
      × AllEntries (λ e c. IsKeyOf E e (E.remote_id c)) s.connections
      × All (ServesOrigin E) s.readers
      × All (ServesOrigin E) s.watches
      × ((c : E.Channel) → All (HasOrigin E s.readers s.endpoint_id) (Q.waiting s.channels c))

  pub add_peer-IsProven :
      (s : Shared E) (addr : E.NodeAddr) → IsProven s → IsProven (add_peer E s addr).0
  unfolding IsProven add_peer
  add_peer-IsProven s addr h = elim (Option-cases (node_id_to_endpoint_id E (E.addr_id addr))) [
    | inl p ↦ rw (p, add_peer) h
    | inr (e, p) ↦
        rw (p, add_peer)
          (AllEntries-insert EndpointId-discrete _ e addr s.peers p h.0, h.1, h.2, h.3, h.4)
  ]

  pub add_peer_by_id-IsProven :
      (s : Shared E) (e : EndpointId) → IsProven s → IsProven (add_peer_by_id E s e).0
  unfolding IsProven add_peer_by_id
  add_peer_by_id-IsProven s e h = elim (Result-cases (endpoint_id_to_node_id E e)) [
    | inl (id, p) ↦ rw (p, add_peer_by_id) (add_peer-IsProven s (E.new_addr id) h)
    | inr (x, p) ↦ rw (p, add_peer_by_id) h
  ]

  pub close_connection-IsProven :
      (s : Shared E) (e : EndpointId) → IsProven s → IsProven (close_connection E s e).0
  unfolding IsProven close_connection
  close_connection-IsProven s e h =
      let kept : IsProven (record s { connections = remove EndpointId-discrete e s.connections }) =
        (h.0, AllEntries-remove EndpointId-discrete _ e s.connections h.1, h.2, h.3, h.4) in
      elim (Option-cases (get EndpointId-discrete e s.connections)) [
        | inl p ↦ rw (p, close_connection) kept
        | inr (c, p) ↦ rw (p, close_connection) kept
      ]

  spawn_reader-IsProven :
      (s : Shared E) (c : E.Connection) → IsProven s → IsProven (spawn_reader E s c)
  unfolding IsProven spawn_reader
  spawn_reader-IsProven s c h = elim (Option-cases (node_id_to_endpoint_id E (E.remote_id c))) [
    | inl p ↦ rw (p, spawn_reader) h
    | inr (e, p) ↦
        rw (p, spawn_reader)
          (
            h.0,
            h.1,
            (p, h.2),
            h.3,
            λ j. All-map _ _ (Q.waiting s.channels j) (λ d u. (ground (arith, u.0), u.1)) (h.4 j),
          )
  ]

  cache-IsProven :
      (s : Shared E) (e : EndpointId) (c : E.Connection)
      → IsKeyOf E e (E.remote_id c)
      → IsProven s
      → IsProven (cache E s e c)
  unfolding IsProven cache
  cache-IsProven s e c p h =
      (h.0, AllEntries-insert EndpointId-discrete _ e c s.connections p h.1, h.2, h.3, h.4)

  watch_connection-IsProven :
      (s : Shared E) (c : E.Connection) (e : EndpointId)
      → IsKeyOf E e (E.remote_id c)
      → IsProven s
      → IsProven (watch_connection E s c e)
  unfolding IsProven watch_connection
  watch_connection-IsProven s c e p h = (h.0, h.1, h.2, (p, h.3), h.4)

  -- The network is no part of it.
  pub endpoint-IsProven :
      (s : Shared E) (n : E.Endpoint) → IsProven s → IsProven (record s { endpoint = n })
  unfolding IsProven
  endpoint-IsProven s n h = h

  pub accepted-IsProven :
      (s : Shared E) (c : Option E.Connection) → IsProven s → IsProven (accepted E s c)
  unfolding accepted
  accepted-IsProven s none h = h
  accepted-IsProven s (some c) h = elim (Option-cases (node_id_to_endpoint_id E (E.remote_id c))) [
    | inl p ↦ rw (p, accepted) h
    | inr (e, p) ↦
        rw (p, accepted)
          (spawn_reader-IsProven _ c (watch_connection-IsProven _ c e p (cache-IsProven s e c p h)))
  ]

  peer-IsKeyOf :
      (s : Shared E) (e : EndpointId) (addr : E.NodeAddr)
      → IsProven s
      → get EndpointId-discrete e s.peers ≡ some addr
      → IsKeyOf E e (E.addr_id addr)
  unfolding IsProven
  peer-IsKeyOf s e addr h p = AllEntries-get EndpointId-discrete _ e s.peers h.0 p

  pub cached-IsKeyOf :
      (s : Shared E) (e : EndpointId) (c : E.Connection)
      → IsProven s
      → get EndpointId-discrete e s.connections ≡ some c
      → IsKeyOf E e (E.remote_id c)
  unfolding IsProven
  cached-IsKeyOf s e c h p = AllEntries-get EndpointId-discrete _ e s.connections h.1 p

  -- A dialed connection proves the key of the peer that was asked for.
  pub dialed-IsKeyOf :
      Authenticates E
      → (s : Shared E) (e : EndpointId) (addr : E.NodeAddr) (c : E.Connection) → IsProven s
      → get EndpointId-discrete e s.peers ≡ some addr
      → (E.connect s.endpoint addr alpn).1 ≡ ok c
      → IsKeyOf E e (E.remote_id c)
  dialed-IsKeyOf auth s e addr c h p q =
      subst (IsKeyOf E e) (sym (auth s.endpoint addr alpn c q)) (peer-IsKeyOf s e addr h p)

  dial-IsProven :
      Authenticates E → (s : Shared E) (peer : EndpointId) → IsProven s → IsProven (dial E s peer).0
  unfolding dial
  dial-IsProven auth s peer h = elim (Option-cases (get EndpointId-discrete peer s.peers)) [
    | inl p ↦ rw (p, dial) h
    | inr (addr, p) ↦ elim (Result-cases (E.connect s.endpoint addr alpn).1) [
      | inr (e, q) ↦ rw (p, q, dial) (endpoint-IsProven s (E.connect s.endpoint addr alpn).0 h)
      | inl (c, q) ↦
          let key : IsKeyOf E peer (E.remote_id c) = dialed-IsKeyOf auth s peer addr c h p q in
          rw (p, q, dial)
            (watch_connection-IsProven _ c peer key (
              spawn_reader-IsProven _ c (
                cache-IsProven _ peer c key
                  (endpoint-IsProven s (E.connect s.endpoint addr alpn).0 h))))
    ]
  ]

  connection_to-IsProven :
      Authenticates E
      → (s : Shared E) (peer : EndpointId) (force_fresh : Bool) → IsProven s
      → IsProven (connection_to E s peer force_fresh).0
  unfolding connection_to
  connection_to-IsProven auth s peer true h = dial-IsProven auth s peer h
  connection_to-IsProven auth s peer false h =
      elim (Option-cases (get EndpointId-discrete peer s.connections)) [
        | inl p ↦ rw (p, connection_to) (dial-IsProven auth s peer h)
        | inr (c, p) ↦ rw (p, connection_to) h
      ]

  attempt-IsProven :
      Authenticates E
      → (s : Shared E) (peer : EndpointId) (bytes : List ℕ) (force_fresh : Bool) → IsProven s
      → IsProven (attempt E s peer bytes force_fresh).0
  unfolding attempt
  attempt-IsProven auth s peer bytes force_fresh h =
      let next = connection_to-IsProven auth s peer force_fresh h in
      let (s', _) = connection_to E s peer force_fresh in
      elim (Result-cases (connection_to E s peer force_fresh).1) [
        | inl (c, p) ↦
            rw (p, attempt) (endpoint-IsProven s' (send_frame E s'.endpoint c bytes).0 next)
        | inr (e, p) ↦ rw (p, attempt) next
      ]

  attempts-IsProven :
      Authenticates E
      → (more i : ℕ) (s : Shared E) (peer : EndpointId) (bytes : List ℕ) → IsProven s
      → IsProven (attempts E more i s peer bytes).0
  unfolding attempts
  attempts-IsProven auth zero i s peer bytes h =
      let next = attempt-IsProven auth s peer bytes (ltb 0 i) h in
      elim (Result-cases (attempt E s peer bytes (ltb 0 i)).1) [
        | inl (sent, p) ↦ rw (p, attempts) next
        | inr (e, p) ↦ rw (p, attempts) next
      ]
  attempts-IsProven auth (suc more) i s peer bytes h =
      let next = attempt-IsProven auth s peer bytes (ltb 0 i) h in
      elim (Result-cases (attempt E s peer bytes (ltb 0 i)).1) [
        | inr (e, p) ↦ rw (p, attempts) next
        | inl (sent, p) ↦ elim (Result-cases sent) [
          | inl (u, q) ↦ rw (p, q, attempts) next
          | inr (e, q) ↦ rw (p, q, attempts) (attempts-IsProven auth more (suc i) _ peer bytes next)
        ]
      ]

  pub send_encoded-IsProven :
      Authenticates E
      → (s : Shared E) (peer : EndpointId) (frame : Frame) → IsProven s
      → IsProven (send_encoded E s peer frame).0
  unfolding send_encoded
  send_encoded-IsProven auth s peer frame h = elim (Result-cases (E.to_stdvec frame)) [
    | inl (bytes, p) ↦ rw (p, send_encoded) (attempts-IsProven auth 1 0 s peer bytes h)
    | inr (e, p) ↦ rw (p, send_encoded) h
  ]
