-- ===== src/Iroh/Sending.antt =====
-- crates/kamiroh-adapter-iroh/src/lib.rs: connections that are dialed and accepted, and frames
-- that are sent over them.
use kamiroh.Iroh.Shared.{Shared, node_id_to_endpoint_id}
use kamiroh.Common.{
  ◌∷◌, none, some, ok, err, zero, suc, List, Option, Result, ℕ, Bool, cond, ltb, not, same,
}
use kamiroh.Iroh.External.{External}
use kamiroh.Domain.Address.{Address, EndpointId, ActorName, EndpointId-discrete}
use kamiroh.Iroh.Errors.{
  IrohTransportError, encode_error, stream_error, unknown_peer, not_our_endpoint, connect_error,
}
use kamiroh.Iroh.Frame.{Frame, alpn, open_many_frame, single}
use kamiroh.Domain.Vocabulary.{Message, Request}
use kamiroh.Common.Assoc.{get, insert}

module _ (E : External) where
  -- The end of `send_frame`: the stream is finished, and the peer's acknowledgement awaited.
  unfoldable pub finish_stream :
      E.Endpoint → E.SendStream → E.Endpoint × Result (Unit {0}) IrohTransportError
  finish_stream n stream =
      let (n', finished) = E.finish n stream in
      elim finished [ err e ↦ (n', err (stream_error e)) | ok u ↦ (E.stopped n' stream, ok tt) ]

  unfoldable pub send_frame :
      E.Endpoint → E.Connection → List ℕ → E.Endpoint × Result (Unit {0}) IrohTransportError
  unfolding finish_stream
  send_frame n c bytes =
      let (n1, opened) = E.open_uni n c in
      elim opened [
        | err e ↦ (n1, err (stream_error e))
        | ok stream ↦
            let (n2, written) = E.write_all n1 stream bytes in
            elim written [ err e ↦ (n2, err (stream_error e)) | ok u ↦ finish_stream n2 stream ]
      ]

  -- `spawn_reader` and `watch_connection`; the reader finds the origin out for itself, and panics
  -- where a node id does not display as hex.
  unfoldable pub spawn_reader : Shared E → E.Connection → Shared E
  spawn_reader s c = elim (node_id_to_endpoint_id E (E.remote_id c)) [
    | none ↦ s
    | some e ↦ record s { readers = record { connection = c; origin = e } ∷ s.readers }
  ]

  unfoldable pub watch_connection : Shared E → E.Connection → EndpointId → Shared E
  watch_connection s c e = record s { watches = record { connection = c; origin = e } ∷ s.watches }

  unfoldable pub cache : Shared E → EndpointId → E.Connection → Shared E
  cache s e c = record s { connections = insert EndpointId-discrete e c s.connections }

  -- `connection_to` past the cache.
  unfoldable pub dial : Shared E → EndpointId → Shared E × Result E.Connection IrohTransportError
  unfolding spawn_reader watch_connection cache
  dial s peer = elim (get EndpointId-discrete peer s.peers) [
    | none ↦ (s, err unknown_peer)
    | some addr ↦
        let (n, connected) = E.connect s.endpoint addr alpn in
        let s' = record s { endpoint = n } in
        elim connected [
          | err e ↦ (s', err (connect_error e))
          | ok c ↦ (watch_connection (spawn_reader (cache s' peer c) c) c peer, ok c)
        ]
  ]

  unfoldable pub connection_to :
      Shared E → EndpointId → Bool → Shared E × Result E.Connection IrohTransportError
  unfolding dial
  connection_to s peer force_fresh =
      let existing = cond force_fresh none (get EndpointId-discrete peer s.connections) in
      elim existing [ some c ↦ (s, ok c) | none ↦ dial s peer ]

  -- One attempt of `send_encoded`: `err` is the failure of `connection_to`, which returns at once,
  -- and `ok` what `send_frame` said.
  unfoldable pub attempt :
      Shared E
      → EndpointId
      → List ℕ
      → Bool
      → Shared E × Result (Result (Unit {0}) IrohTransportError) IrohTransportError
  unfolding connection_to send_frame
  attempt s peer bytes force_fresh =
      let (s', connected) = connection_to s peer force_fresh in
      elim connected [
        | err e ↦ (s', err e)
        | ok c ↦
            let (n, sent) = send_frame s'.endpoint c bytes in (record s' { endpoint = n }, ok sent)
      ]

  -- The loop of `send_encoded`: the attempt numbered `i`, and `more` after it. The error of the
  -- last attempt is the one that is returned.
  unfoldable pub attempts :
      (more i : ℕ)
      → Shared E
      → EndpointId
      → List ℕ
      → Shared E × Result (Unit {0}) IrohTransportError
  unfolding attempt
  attempts zero i s peer bytes =
      let (s', tried) = attempt s peer bytes (ltb 0 i) in
      elim tried [ err e ↦ (s', err e) | ok sent ↦ (s', sent) ]
  attempts (suc more) i s peer bytes =
      let (s', tried) = attempt s peer bytes (ltb 0 i) in
      elim tried [
        | err e ↦ (s', err e)
        | ok (ok u) ↦ (s', ok tt)
        | ok (err e) ↦ attempts more (suc i) s' peer bytes
      ]

  unfoldable pub send_encoded :
      Shared E → EndpointId → Frame → Shared E × Result (Unit {0}) IrohTransportError
  unfolding attempts
  send_encoded s peer frame = elim (E.to_stdvec frame) [
    | err e ↦ (s, err (encode_error e))
    | ok bytes ↦ attempts 1 0 s peer bytes
  ]

  -- `IrohTransport::send` and `IrohTransport::open_many`.
  unfoldable pub send :
      Shared E → Address → Address → Message → Shared E × Result (Unit {0}) IrohTransportError
  unfolding send_encoded
  send s from to m =
      cond (not (same EndpointId-discrete from.endpoint s.endpoint_id)) (s, err not_our_endpoint)
        (send_encoded s to.endpoint (single from.name to.name m))

  unfoldable pub open_many :
      Shared E
      → Address
      → EndpointId
      → List ActorName
      → Request
      → Shared E × Result (Unit {0}) IrohTransportError
  unfolding send_encoded
  open_many s from e names q =
      cond (not (same EndpointId-discrete from.endpoint s.endpoint_id)) (s, err not_our_endpoint)
        (send_encoded s e (open_many_frame from.name names q))

  -- The task of `accept_loop` for one incoming connection; `none` is a failed handshake.
  unfoldable pub accepted : Shared E → Option E.Connection → Shared E
  unfolding spawn_reader watch_connection cache
  accepted s none = s
  accepted s (some c) = elim (node_id_to_endpoint_id E (E.remote_id c)) [
    | none ↦ s
    | some e ↦ spawn_reader (watch_connection (cache s e c) c e) c
  ]
