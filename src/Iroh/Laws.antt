-- ===== src/Iroh/Laws.antt =====
-- crates/kamiroh-adapter-iroh/src/lib.rs: what its theorems rely on of the other packages: the
-- documented behaviour of postcard, of QUIC connections and of tokio's unbounded channels.
use kamiroh.Iroh.External.{External}
use kamiroh.Common.{[], ◌∷◌, some, ok, true, false, List, Text, ℕ, ◌≡◌, length, ◌≤◌, ◌⊎◌, ◌++◌}
use kamiroh.Iroh.Frame.{Frame}
use kamiroh.Ports.{Delivery}

module _ (E : External) where
  -- postcard reads back what it wrote.
  abbrev pub ReadsBack : Type 0
  ReadsBack = (f : Frame) (bytes : List ℕ) → E.to_stdvec f ≡ ok bytes → E.from_bytes bytes ≡ some f

  -- The remote key of a connection that was dialed is the key that was dialed.
  abbrev pub Authenticates : Type 0
  Authenticates =
      (n : E.Endpoint) (addr : E.NodeAddr) (protocol : Text) (c : E.Connection)
      → (E.connect n addr protocol).1 ≡ ok c
      → E.remote_id c ≡ E.addr_id addr

  -- `read_to_end` never gives more than its limit.
  abbrev pub KeepsLimit : Type 0
  KeepsLimit =
      (n : E.Endpoint) (stream : E.RecvStream) (limit : ℕ) (bytes : List ℕ)
      → (E.read_to_end n stream limit).1 ≡ some bytes
      → length bytes ≤ limit

  -- Channels are queues: `waiting` lists what was sent and not yet received. A new channel is
  -- empty, and no other one is touched; a message that is sent waits last, if anywhere; what is
  -- received is what waited first.
  pub record Queues : Type 0 where
    pub waiting : E.Channels → E.Channel → List Delivery
    pub waiting_none : (c : E.Channel) → waiting E.no_channels c ≡ []
    pub new_waiting :
        (k : E.Channels) (c : E.Channel)
        → (waiting (E.unbounded_channel k).0 c ≡ waiting k c)
          ⊎ (waiting (E.unbounded_channel k).0 c ≡ [])
    pub sent :
        (k : E.Channels) (c j : E.Channel) (d : Delivery)
        → (waiting (E.channel_send k c d) j ≡ waiting k j)
          ⊎ (waiting (E.channel_send k c d) j ≡ waiting k j ++ d ∷ [])
    pub received :
        (k : E.Channels) (c j : E.Channel)
        → (waiting (E.recv k c).0 j ≡ waiting k j)
          ⊎ ((d : Delivery) × (waiting k j ≡ d ∷ waiting (E.recv k c).0 j))
    pub dropped_waiting :
        (k : E.Channels) (c j : E.Channel)
        → (waiting (E.drop_receiver k c) j ≡ waiting k j) ⊎ (waiting (E.drop_receiver k c) j ≡ [])

  -- A channel is open from its creation until its receiver is dropped, and what is sent to an
  -- open channel arrives.
  pub record ChannelLaws (queues : Queues) : Type 0 where
    pub new_open :
        (k : E.Channels) → E.is_closed (E.unbounded_channel k).0 (E.unbounded_channel k).1 ≡ false
    pub sent_open :
        (k : E.Channels) (c : E.Channel) (d : Delivery)
        → E.is_closed k c ≡ false
        → queues.waiting (E.channel_send k c d) c ≡ queues.waiting k c ++ d ∷ []
    pub closed_sent :
        (k : E.Channels) (c j : E.Channel) (d : Delivery)
        → E.is_closed (E.channel_send k c d) j ≡ E.is_closed k j
    pub dropped : (k : E.Channels) (c : E.Channel) → E.is_closed (E.drop_receiver k c) c ≡ true
