-- ===== src/Iroh/Frame.antt =====
-- crates/kamiroh-adapter-iroh/src/lib.rs: what crosses the wire.
use kamiroh.Common.{Text, codes, ℕ, ◌*◌, List}
use kamiroh.Domain.Address.{ActorName}
use kamiroh.Domain.Vocabulary.{Message, Request}

-- `ALPN` and `MAX_FRAME_BYTES`.
abbrev pub alpn : Text
alpn = codes "kamiroh/1"

abbrev pub max_frame_bytes : ℕ
max_frame_bytes = 1024 * 1024

pub data Frame : Type 0 where
  single : (from_name to_name : ActorName) (message : Message) → Frame
  open_many_frame : (from_name : ActorName) (to_names : List ActorName) (request : Request) → Frame

-- How an endpoint meets the network.
pub data NetProfile : Type 0 where
  hermetic n0 : NetProfile
