-- ===== src/Iroh/Reading.antt =====
-- crates/kamiroh-adapter-iroh/src/lib.rs: the reader of a connection.
use kamiroh.Iroh.Shared.{Shared, Serving}
use kamiroh.Common.{[], ◌∷◌, none, some, ok, err, true, false, zero, suc, Bool, Option, ℕ, List}
use kamiroh.Domain.Address.{Address, ActorName, EndpointId, ActorName-discrete}
use kamiroh.Iroh.External.{External}
use kamiroh.Ports.{Delivery, batch_receipt_sender}
use kamiroh.Domain.Vocabulary.{Request, turn_message, open_turn, ack_message}
use kamiroh.Iroh.Frame.{Frame, max_frame_bytes, single, open_many_frame}
use kamiroh.Common.Assoc.{get}
use kamiroh.Iroh.Sending.{send_frame}

-- The delivery that a frame's opening request makes at a name.
unfoldable pub opening : Address → EndpointId → Request → ActorName → Delivery
opening from here q name = record {
  from = from;
  to = record { endpoint = here; name = name };
  message = turn_message (open_turn q);
}

module _ (E : External) where
  -- `router.bound.get` and the send: a name that is not bound is passed over.
  unfoldable pub route : Shared E → Delivery → Shared E
  route s d = elim (get ActorName-discrete d.to.name s.bound) [
    | none ↦ s
    | some c ↦ record s { channels = E.channel_send s.channels c d }
  ]

  unfoldable pub fan_in : Shared E → Address → Request → List ActorName → Shared E
  unfolding route opening
  fan_in s from q [] = s
  fan_in s from q (name ∷ names) = fan_in (route s (opening from s.endpoint_id q name)) from q names

  -- The receipt of a batch, sent best-effort over the connection that it arrived on.
  unfoldable pub batch_receipt : EndpointId → ActorName → Request → Frame
  batch_receipt here to_name q =
      single (batch_receipt_sender here).name to_name (ack_message (record { id = q.id }))

  unfoldable pub send_receipt : Shared E → E.Connection → ActorName → Request → Shared E
  unfolding batch_receipt
  send_receipt s c to_name q = elim (E.to_stdvec (batch_receipt s.endpoint_id to_name q)) [
    | err e ↦ s
    | ok bytes ↦ record s { endpoint = (send_frame E s.endpoint c bytes).0 }
  ]

  unfoldable pub take_frame : Shared E → Serving E → Frame → Shared E
  unfolding route fan_in send_receipt
  take_frame s r (single from_name to_name m) = route s (record {
    from = record { endpoint = r.origin; name = from_name };
    to = record { endpoint = s.endpoint_id; name = to_name };
    message = m;
  })
  take_frame s r (open_many_frame from_name to_names q) =
      fan_in (send_receipt s r.connection from_name q)
        (record { endpoint = r.origin; name = from_name }) q to_names

  -- The frame on a stream: `none` where it is too long, broken off or malformed.
  unfoldable pub read_frame : E.Endpoint → E.RecvStream → E.Endpoint × Option Frame
  read_frame n stream =
      let (n', read) = E.read_to_end n stream max_frame_bytes in
      (n', elim read [ none ↦ none | some bytes ↦ E.from_bytes bytes ])

  -- One turn of the loop, and whether the loop goes on.
  unfoldable pub read_one : Shared E → Serving E → Shared E × Bool
  unfolding read_frame take_frame
  read_one s r =
      let (n1, opened) = E.accept_uni s.endpoint r.connection in
      elim opened [
        | none ↦ (record s { endpoint = n1 }, false)
        | some stream ↦
            let (n2, read) = read_frame n1 stream in
            let s' = record s { endpoint = n2 } in
            elim read [ none ↦ (s', true) | some frame ↦ (take_frame s' r frame, true) ]
      ]

  -- At most the given number of turns: until the connection is closed.
  unfoldable pub read_for : ℕ → Shared E → Serving E → Shared E
  unfolding read_one
  read_for zero s r = s
  read_for (suc n) s r =
      let (s', more) = read_one s r in elim more [ false ↦ s' | true ↦ read_for n s' r ]
