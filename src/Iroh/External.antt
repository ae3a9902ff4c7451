-- ===== src/Iroh/External.antt =====
-- crates/kamiroh-adapter-iroh/src/lib.rs: what it calls of other packages, as parameters. They are
-- iroh (node ids, endpoints, connections and streams), postcard (the bytes of a frame) and tokio
-- (unbounded channels). A call that waits is the value that its future comes to.
use kamiroh.Common.{Text, ℕ, List, Result, Option, Bool}
use kamiroh.Ports.{Delivery, Poll}
use kamiroh.Iroh.Frame.{Frame, NetProfile}

pub record External : Type 1 where
  -- iroh's `EndpointId` and `EndpointAddr`, which the source calls `NodeId` and `NodeAddr`.
  pub NodeId : Type 0
  pub display : NodeId → Text
  pub from_str : Text → Option NodeId
  pub NodeAddr : Type 0
  pub new_addr : NodeId → NodeAddr
  pub addr_id : NodeAddr → NodeId
  -- `Endpoint::builder`, with the presets and relay mode of a profile.
  pub Builder : Type 0
  pub builder : NetProfile → Builder
  -- `bind_addr` at the port on every interface.
  pub bind_addr : Builder → ℕ → Result Builder Text
  -- `secret_key`, `alpns` and `bind`.
  pub Endpoint : Type 0
  pub bind : Builder → List ℕ → Text → Result Endpoint Text
  pub endpoint_node_id : Endpoint → NodeId
  -- A connection is a handle; what happens to it happens in the endpoint.
  pub Connection : Type 0
  pub stable_id : Connection → ℕ
  pub remote_id : Connection → NodeId
  pub paths : Endpoint → Connection → Text
  pub connect : Endpoint → NodeAddr → Text → Endpoint × Result Connection Text
  pub close_connection : Endpoint → Connection → Endpoint
  pub close : Endpoint → Endpoint
  -- Streams to write to.
  pub SendStream : Type 0
  pub open_uni : Endpoint → Connection → Endpoint × Result SendStream Text
  pub write_all : Endpoint → SendStream → List ℕ → Endpoint × Result (Unit {0}) Text
  pub finish : Endpoint → SendStream → Endpoint × Result (Unit {0}) Text
  pub stopped : Endpoint → SendStream → Endpoint
  -- Streams to read from; `read_to_end` fails past its limit.
  pub RecvStream : Type 0
  pub accept_uni : Endpoint → Connection → Endpoint × Option RecvStream
  pub read_to_end : Endpoint → RecvStream → ℕ → Endpoint × Option (List ℕ)
  -- Why a connection closed.
  pub ConnectionError : Type 0
  pub locally_closed : ConnectionError → Bool
  -- `postcard::to_stdvec` and `postcard::from_bytes::<Frame>`.
  pub to_stdvec : Frame → Result (List ℕ) Text
  pub from_bytes : List ℕ → Option Frame
  -- Every unbounded channel; its two ends are one handle, and dropping the receiver closes it.
  pub Channels : Type 0
  pub Channel : Type 0
  pub no_channels : Channels
  pub unbounded_channel : Channels → Channels × Channel
  pub is_closed : Channels → Channel → Bool
  pub channel_send : Channels → Channel → Delivery → Channels
  pub recv : Channels → Channel → Channels × Poll (Option Delivery)
  pub drop_receiver : Channels → Channel → Channels
