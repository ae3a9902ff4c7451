-- ===== src/Examples.antt =====
-- Tests on concrete values of crates/kamiroh-domain, kamiroh-app and kamiroh-adapter-memory.
pub mod Values
pub mod Machines
pub mod Phones
pub mod Running
pub mod Hosting
pub mod Awaiting
pub mod Network
pub mod Wire
pub mod Connections
pub mod Rosters
pub mod Reaching
pub mod Together
