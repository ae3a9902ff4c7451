-- ===== src/Iroh.antt =====
-- crates/kamiroh-adapter-iroh/src/lib.rs: the transport over QUIC connections.
pub mod Frame
pub mod External
pub mod Errors
pub mod Shared
pub mod Net
pub mod Deaths
pub mod Sending
pub mod Reading
pub mod Laws
pub mod World
pub mod Steps
pub mod Proven
pub mod Routed
pub mod Reached
pub mod Authentic
pub mod Delivered
pub mod Registered
pub mod Retried
pub mod Silent
pub mod Verdicts
