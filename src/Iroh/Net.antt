-- ===== src/Iroh/Net.antt =====
-- crates/kamiroh-adapter-iroh/src/lib.rs: what an `IrohNet` does: it is bound, it is told of its
-- peers, it registers actors, and it closes connections.
use mathlib.Core.Option
use kamiroh.Iroh.Shared.{started, Shared, node_id_to_endpoint_id, endpoint_id_to_node_id, started}
use kamiroh.Common.{
  [], ◌∷◌, none, some, ok, err, true, false, Option, ℕ, Bool, Result, Text, ◌++◌, length, cond, not,
  same, ℕ_discrete,
}
use kamiroh.Iroh.External.{External}
use kamiroh.Domain.Secret.{Secret, expose}
use kamiroh.Domain.Address.{ActorName, Address, EndpointId, ActorName-discrete, EndpointId-discrete}
use kamiroh.Ports.{Poll, Delivery}
use kamiroh.Iroh.Frame.{NetProfile, hermetic, alpn}
use kamiroh.Iroh.Errors.{IrohNetError, bind_error, wrong_endpoint, name_in_use, bad_secret}
use kamiroh.Common.Assoc.{get, insert, remove}

module _ (E : External) where
  -- The builder with its port: `bind_addr` when there is one.
  unfoldable pub with_port : Option ℕ → E.Builder → Result E.Builder IrohNetError
  with_port none b = ok b
  with_port (some port) b = elim (E.bind_addr b port) [ ok b' ↦ ok b' | err e ↦ err (bind_error e) ]

  -- `IrohNet::bind_inner`.
  unfoldable pub bind_inner :
      Secret → NetProfile → Option ℕ → Result (Option (Shared E)) IrohNetError
  unfolding with_port
  bind_inner secret profile port =
      cond (not (same ℕ_discrete (length (expose secret)) 32)) (err bad_secret)
        (elim (with_port port (E.builder profile)) [
          | err e ↦ err e
          | ok b ↦ elim (E.bind b (expose secret) alpn) [
            | err e ↦ err (bind_error e)
            | ok endpoint ↦ ok (started E endpoint)
          ]
        ])

  unfoldable pub bind_net : Secret → Result (Option (Shared E)) IrohNetError
  bind_net secret = bind_inner secret hermetic none

  unfoldable pub bind_on : Secret → Option ℕ → Result (Option (Shared E)) IrohNetError
  bind_on secret port = bind_inner secret hermetic port

  unfoldable pub bind_with : Secret → NetProfile → Result (Option (Shared E)) IrohNetError
  bind_with secret profile = bind_inner secret profile none

  -- `add_peer`; `none` is a panic.
  unfoldable pub add_peer : Shared E → E.NodeAddr → Shared E × Option EndpointId
  add_peer s addr = elim (node_id_to_endpoint_id E (E.addr_id addr)) [
    | none ↦ (s, none)
    | some e ↦ (record s { peers = insert EndpointId-discrete e addr s.peers }, some e)
  ]

  -- `add_peer_by_id`; `none` is a panic.
  unfoldable pub add_peer_by_id :
      Shared E → EndpointId → Shared E × Option (Result (Unit {0}) IrohNetError)
  unfolding add_peer
  add_peer_by_id s e = elim (endpoint_id_to_node_id E e) [
    | err x ↦ (s, some (err x))
    | ok id ↦ let (s', added) = add_peer s (E.new_addr id) in (s', Option.map (λ e. ok tt) added)
  ]

  unfoldable pub paths_to : Shared E → EndpointId → Option Text
  paths_to s peer = Option.map (E.paths s.endpoint) (get EndpointId-discrete peer s.connections)

  unfoldable pub death_watch : Shared E → Shared E × ℕ
  death_watch s = (
    record s { death_watchers = s.death_watchers ++ record { queue = []; waker = none } ∷ [] },
    length s.death_watchers,
  )

  unfoldable pub close_connection : Shared E → EndpointId → Shared E × Bool
  close_connection s peer =
      let s' = record s { connections = remove EndpointId-discrete peer s.connections } in
      elim (get EndpointId-discrete peer s.connections) [
        | none ↦ (s', false)
        | some c ↦ (record s' { endpoint = E.close_connection s.endpoint c }, true)
      ]

  unfoldable pub shutdown : Shared E → Shared E
  shutdown s = record s { endpoint = E.close s.endpoint }

  -- Whether a name is bound to a channel that is still open.
  unfoldable pub is_bound : Shared E → ActorName → Bool
  is_bound s name = elim (get ActorName-discrete name s.bound) [
    | none ↦ false
    | some c ↦ not (E.is_closed s.channels c)
  ]

  -- `Registry::bind`. An `IrohInbox` is its channel.
  unfoldable pub bind : Shared E → Address → Shared E × Result E.Channel IrohNetError
  unfolding is_bound
  bind s a =
      cond (not (same EndpointId-discrete a.endpoint s.endpoint_id)) (s, err wrong_endpoint)
        (cond (is_bound s a.name) (s, err name_in_use)
          (let (channels', c) = E.unbounded_channel s.channels in
            (
              record s { channels = channels'; bound = insert ActorName-discrete a.name c s.bound },
              ok c,
            )))

  -- `IrohInbox::next`, and the drop of an inbox.
  unfoldable pub next : Shared E → E.Channel → Shared E × Poll (Option Delivery)
  next s c =
      let (channels', polled) = E.recv s.channels c in (record s { channels = channels' }, polled)

  unfoldable pub drop_inbox : Shared E → E.Channel → Shared E
  drop_inbox s c = record s { channels = E.drop_receiver s.channels c }
