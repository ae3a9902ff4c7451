-- ===== src/Iroh/Delivered.antt =====
-- crates/kamiroh-adapter-iroh/src/lib.rs: what a frame that arrives does to the inboxes.
use kamiroh.Common.{refl, [], ◌∷◌, some, ok, inl, inr, false}
use kamiroh.Iroh.Shared.{Shared, Serving}
use kamiroh.Iroh.Reading.{read_one, read_frame, take_frame, fan_in, route, send_receipt, opening}
use kamiroh.Common.{
  [], ◌∷◌, some, ok, inl, inr, false, List, ◌≡◌, map, ◌⊎◌, ℕ, length, ◌≤◌, Option-cases, ◌++◌,
}
use kamiroh.Iroh.External.{External}
use kamiroh.Iroh.Laws.{KeepsLimit, Queues, ChannelLaws, ReadsBack}
use kamiroh.Domain.Address.{ActorName, ActorName-discrete}
use kamiroh.Iroh.Frame.{Frame, open_many_frame, single, max_frame_bytes}
use kamiroh.Domain.Vocabulary.{Request, Message, turn_message, open_turn}
use kamiroh.Common.Assoc.{get}

module _ (E : External) where
  -- When postcard reads back what it wrote: a message that the sender encoded, and whose bytes a
  -- stream of the connection gives, arrives last in the inbox that is bound to its name, from the
  -- name that the sender claimed at the endpoint that the connection proves.
  pub read_one-single :
      (queues : Queues E) (laws : ChannelLaws E queues) (reads_back : ReadsBack E) (s : Shared E)
      (r : Serving E) (from_name to_name : ActorName) (m : Message) (bytes : List ℕ)
      (stream : E.RecvStream) (c : E.Channel)
      → E.to_stdvec (single from_name to_name m) ≡ ok bytes
      → (E.accept_uni s.endpoint r.connection).1 ≡ some stream
      → (E.read_to_end (E.accept_uni s.endpoint r.connection).0 stream max_frame_bytes).1
        ≡ some bytes
      → get ActorName-discrete to_name s.bound ≡ some c
      → E.is_closed s.channels c ≡ false
      → queues.waiting (read_one E s r).0.channels c
        ≡ queues.waiting s.channels c
          ++ record {
            from = record { endpoint = r.origin; name = from_name };
            to = record { endpoint = s.endpoint_id; name = to_name };
            message = m;
          }
            ∷ []
  unfolding read_one read_frame take_frame route
  read_one-single queues laws reads_back s r from_name to_name m bytes stream c p a b bound
        is_open =
      rw
        (
          a,
          b,
          reads_back (single from_name to_name m) bytes p,
          bound,
          read_one,
          read_frame,
          take_frame,
          route,
        )
        (laws.sent_open s.channels c _ is_open)

  -- Frames that one connection brings, one after the other.
  abbrev pub take_frames : Shared E → Serving E → List Frame → Shared E
  take_frames s r [] = s
  take_frames s r (f ∷ fs) = take_frames (take_frame E s r f) r fs

  fan_in-singly :
      (s : Shared E) (r : Serving E) (from_name : ActorName) (q : Request) (names : List ActorName)
      → fan_in E s (record { endpoint = r.origin; name = from_name }) q names
        ≡ take_frames s r (map (λ name. single from_name name (turn_message (open_turn q))) names)
  unfolding fan_in take_frame opening
  fan_in-singly s r from_name q [] = refl
  fan_in-singly s r from_name q (name ∷ names) =
      fan_in-singly
        (route E s
          (opening (record { endpoint = r.origin; name = from_name }) s.endpoint_id q name))
        r from_name q names

  -- A request to many names does what its receipt does and then a single frame for each name, in
  -- their order, with the request as an opening turn.
  pub open_many_frame_singly :
      (s : Shared E) (r : Serving E) (from_name : ActorName) (names : List ActorName) (q : Request)
      → take_frame E s r (open_many_frame from_name names q)
        ≡ take_frames
            (send_receipt E s r.connection from_name q)
            r
            (map (λ name. single from_name name (turn_message (open_turn q))) names)
  unfolding take_frame
  open_many_frame_singly s r from_name names q =
      fan_in-singly (send_receipt E s r.connection from_name q) r from_name q names

  -- When `read_to_end` keeps its limit: one turn of a reader leaves every inbox alone, or takes a
  -- frame that was read from at most `MAX_FRAME_BYTES` bytes.
  pub read_one_bounded :
      (keeps_limit : KeepsLimit E) (s : Shared E) (r : Serving E)
      → ((read_one E s r).0.channels ≡ s.channels)
        ⊎ ((bytes : List ℕ) × (frame : Frame) × (n : E.Endpoint) × (length bytes ≤ max_frame_bytes)
            × (E.from_bytes bytes ≡ some frame)
            × ((read_one E s r).0 ≡ take_frame E (record s { endpoint = n }) r frame))
  unfolding read_one read_frame
  read_one_bounded keeps_limit s r =
      let (n1, opened) = E.accept_uni s.endpoint r.connection in
      elim (Option-cases opened) [
        | inl p ↦ inl (rw (p, read_one) refl)
        | inr (stream, p) ↦
            let (n2, read) = E.read_to_end n1 stream max_frame_bytes in
            elim (Option-cases read) [
              | inl q ↦ inl (rw (p, q, read_one, read_frame) refl)
              | inr (bytes, q) ↦ elim (Option-cases (E.from_bytes bytes)) [
                | inl u ↦ inl (rw (p, q, u, read_one, read_frame) refl)
                | inr (frame, u) ↦ inr (
                  bytes,
                  frame,
                  n2,
                  keeps_limit n1 stream max_frame_bytes bytes q,
                  u,
                  rw (p, q, u, read_one, read_frame) refl,
                )
              ]
            ]
      ]
