-- ===== src/App.antt =====
-- kamiroh-app: the services between the ports.
pub mod Armed
pub mod Admission
pub mod Inbound
pub mod Conversation
pub mod Phone
pub mod Wait
pub mod Parties
pub mod Runtime
pub mod Exchanging
pub mod Echoed
pub mod Outline
