-- ===== src/Iroh/Reached.antt =====
-- crates/kamiroh-adapter-iroh/src/lib.rs: the proven keys in every state that is reached.
use kamiroh.Iroh.Shared.{Shared, Serving, started, node_id_to_endpoint_id}
use kamiroh.Iroh.Net.{death_watch, shutdown}
use kamiroh.Iroh.Sending.{send, open_many}
use mathlib.Core.Option.{none-ne-some, some-injective}
use kamiroh.Iroh.Steps.{
  sent_to, Step, Reach, begun, peer_added, later, peer_added_by_id, watched, connection_dropped,
  shut_down, bound_at, received_at, inbox_dropped, sent_to, opened_many, connected, read_from,
  closed, death_polled, network_moved,
}
use kamiroh.Common.{
  ◌∷◌, some, inl, inr, Bool-cases, List, Option-cases, ◌≡◌, not, same, ◌++◌, All-middle, ◌&&◌,
  ℕ_discrete, subst,
}
use kamiroh.Iroh.External.{External}
use kamiroh.Iroh.Laws.{Authenticates, Queues}
use kamiroh.Iroh.Proven.{
  IsProven, ServesOrigin, endpoint-IsProven, send_encoded-IsProven, add_peer-IsProven,
  add_peer_by_id-IsProven, close_connection-IsProven, accepted-IsProven,
}
use kamiroh.Iroh.Deaths.{connection_closed, evict, report_death, next_death}
use kamiroh.Domain.Address.{ActorName, Address, EndpointId, EndpointId-discrete}
use kamiroh.Iroh.Frame.{single, open_many_frame}
use kamiroh.Domain.Vocabulary.{Message, Request}
use kamiroh.Common.Assoc.{get, AllEntries-remove}
use kamiroh.Iroh.Routed.{
  bind-IsProven, next-IsProven, drop_inbox-IsProven, read_one-IsProven, any-middle,
}

module _ (E : External) (Q : Queues E) where
  send-IsProven :
      Authenticates E
      → (s : Shared E) (from to : Address) (m : Message) → IsProven E Q s
      → IsProven E Q (send E s from to m).0
  unfolding send
  send-IsProven auth s from to m h =
      elim (Bool-cases (same EndpointId-discrete from.endpoint s.endpoint_id)) [
        | inl p ↦
            rw (p, send)
              (send_encoded-IsProven E Q auth s to.endpoint (single from.name to.name m) h)
        | inr p ↦ rw (p, send) h
      ]

  open_many-IsProven :
      Authenticates E
      → (s : Shared E) (from : Address) (e : EndpointId) (names : List ActorName) (q : Request)
      → IsProven E Q s
      → IsProven E Q (open_many E s from e names q).0
  unfolding open_many
  open_many-IsProven auth s from e names q h =
      elim (Bool-cases (same EndpointId-discrete from.endpoint s.endpoint_id)) [
        | inl p ↦
            rw (p, open_many)
              (send_encoded-IsProven E Q auth s e (open_many_frame from.name names q) h)
        | inr p ↦ rw (p, open_many) h
      ]

  report_death-IsProven :
      (s : Shared E) (e : EndpointId) → IsProven E Q s → IsProven E Q (report_death E s e)
  unfolding report_death IsProven
  report_death-IsProven s e h = h

  evict-IsProven : (s : Shared E) (w : Serving E) → IsProven E Q s → IsProven E Q (evict E s w).0
  unfolding evict IsProven
  evict-IsProven s w h = elim (Option-cases (get EndpointId-discrete w.origin s.connections)) [
    | inl p ↦ rw (p, evict) h
    | inr (c, p) ↦ elim (Bool-cases (same ℕ_discrete (E.stable_id c) (E.stable_id w.connection))) [
      | inl q ↦
          rw (p, q, evict)
            (h.0, AllEntries-remove EndpointId-discrete _ w.origin s.connections h.1, h.2, h.3, h.4)
      | inr q ↦ rw (p, q, evict) h
    ]
  ]

  connection_closed-IsProven :
      (s : Shared E) (w : Serving E) (reason : E.ConnectionError)
      → IsProven E Q s
      → IsProven E Q (connection_closed E s w reason)
  unfolding connection_closed
  connection_closed-IsProven s w reason h =
      let next = evict-IsProven s w h in
      elim (Bool-cases (not (evict E s w).1 && not (E.locally_closed reason))) [
        | inl p ↦ rw (p, connection_closed) (report_death-IsProven _ w.origin next)
        | inr p ↦ rw (p, connection_closed) next
      ]

  watches-IsProven :
      (s : Shared E) (before : List (Serving E)) (w : Serving E) (after : List (Serving E))
      → s.watches ≡ before ++ w ∷ after
      → IsProven E Q s
      → IsProven E Q (record s { watches = before ++ after })
  unfolding IsProven
  watches-IsProven s before w after p h =
      (h.0, h.1, h.2, (All-middle (ServesOrigin E) before w after (rw p at h.3)).1, h.4)

  started-IsProven : (n : E.Endpoint) (s : Shared E) → started E n ≡ some s → IsProven E Q s
  unfolding started IsProven
  started-IsProven n s p = elim (Option-cases (node_id_to_endpoint_id E (E.endpoint_node_id n))) [
    | inl q ↦ absurd (none-ne-some s (rw q at p))
    | inr (e, q) ↦
        subst (IsProven E Q) (some-injective _ s (rw q at p))
          (tt, tt, tt, tt, λ c. rw (Q.waiting_none c) tt)
  ]

  Step-IsProven : Authenticates E → {s t : Shared E} → Step E s t → IsProven E Q s → IsProven E Q t
  unfolding IsProven death_watch shutdown next_death
  Step-IsProven auth (peer_added s addr) h = add_peer-IsProven E Q s addr h
  Step-IsProven auth (peer_added_by_id s e) h = add_peer_by_id-IsProven E Q s e h
  Step-IsProven auth (watched s) h = h
  Step-IsProven auth (connection_dropped s e) h = close_connection-IsProven E Q s e h
  Step-IsProven auth (shut_down s) h = h
  Step-IsProven auth (bound_at s a) h = bind-IsProven E Q s a h
  Step-IsProven auth (received_at s c) h = next-IsProven E Q s c h
  Step-IsProven auth (inbox_dropped s c) h = drop_inbox-IsProven E Q s c h
  Step-IsProven auth (sent_to s from to m) h = send-IsProven auth s from to m h
  Step-IsProven auth (opened_many s from e names q) h = open_many-IsProven auth s from e names q h
  Step-IsProven auth (connected s c) h = accepted-IsProven E Q s c h
  Step-IsProven auth (read_from s r before after p) h =
      read_one-IsProven E Q s r (rw p (any-middle E Q before r after)) h
  Step-IsProven auth (closed s w reason before after p) h =
      connection_closed-IsProven _ w reason (watches-IsProven s before w after p h)
  Step-IsProven auth (death_polled s task i) h = h
  Step-IsProven auth (network_moved s n) h = endpoint-IsProven E Q s n h

  pub Reach-IsProven : Authenticates E → {s : Shared E} → Reach E s → IsProven E Q s
  Reach-IsProven auth (begun n s p) = started-IsProven n s p
  Reach-IsProven auth (later r st) = Step-IsProven auth st (Reach-IsProven auth r)
