-- ===== src/Iroh/Shared.antt =====
-- crates/kamiroh-adapter-iroh/src/lib.rs: the state that the handles of one net share, its peer
-- book, its binding and its handles. The state behind `Arc<Shared>` is passed along, and the
-- spawned tasks stand in it: a reader and a watch for each connection. A waker is the number of
-- the task it wakes, and `woken` lists the wakers that were called, oldest first.
use kamiroh.Iroh.External.{External}
use kamiroh.Domain.Hex.{new as new_hex}
use kamiroh.Common.{[], none, some, ok, err, List, Option, Result, ℕ}
use kamiroh.Domain.Address.{EndpointId, ActorName}
use kamiroh.Iroh.Errors.{IrohNetError, bad_endpoint_id}
use mathlib.Core.Option

pub record DeathQueue : Type 0 where
  pub queue : List EndpointId
  pub waker : Option ℕ

module _ (E : External) where
  -- A spawned task: the connection that it serves, and the origin that the connection proves.
  pub record Serving : Type 0 where
    pub connection : E.Connection
    pub origin : EndpointId

  -- `Shared`, with the `Router` in `bound`.
  pub record Shared : Type 0 where
    pub endpoint : E.Endpoint
    pub endpoint_id : EndpointId
    pub channels : E.Channels
    pub bound : List (ActorName × E.Channel)
    pub peers : List (EndpointId × E.NodeAddr)
    pub connections : List (EndpointId × E.Connection)
    pub death_watchers : List DeathQueue
    pub readers : List Serving
    pub watches : List Serving
    pub woken : List ℕ

  -- `none` is the panic of a node id that does not display as hex.
  unfoldable pub node_id_to_endpoint_id : E.NodeId → Option EndpointId
  node_id_to_endpoint_id id = elim (new_hex (E.display id)) [
    | ok h ↦ some (record { hex = h })
    | err e ↦ none
  ]

  unfoldable pub endpoint_id_to_node_id : EndpointId → Result E.NodeId IrohNetError
  endpoint_id_to_node_id e = elim (E.from_str e.hex.digits) [
    | some id ↦ ok id
    | none ↦ err bad_endpoint_id
  ]

  -- `IrohNet::bind_inner`; `none` is a panic.
  unfoldable pub started : E.Endpoint → Option Shared
  unfolding node_id_to_endpoint_id
  started endpoint =
      Option.map
        (λ e. record {
          endpoint = endpoint;
          endpoint_id = e;
          channels = E.no_channels;
          bound = [];
          peers = [];
          connections = [];
          death_watchers = [];
          readers = [];
          watches = [];
          woken = [];
        })
        (node_id_to_endpoint_id (E.endpoint_node_id endpoint))
