-- ===== src/Kameo.antt =====
-- crates/kamiroh-adapter-kameo/src: the Kameo host of one actor, one message at a time.
pub mod Host
pub mod Timers
pub mod Backed
pub mod Answering
pub mod Handling
pub mod Runtime
pub mod Deliver
pub mod Replied
pub mod Viewed
pub mod Rounds
pub mod Advancing
pub mod Stale
pub mod Agreement
pub mod Dying
pub mod Commanding
pub mod Mourning
pub mod Rostered
