-- ===== src/Memory.antt =====
-- crates/kamiroh-adapter-memory/src: the in-process network and the hand-cranked clock.
pub mod Batch
pub mod Kills
pub mod Partitions
pub mod Sending
pub mod Waiting
pub mod Net
pub mod Faults
pub mod Clock
pub mod Sleeping
pub mod World
