-- ===== src/Transport/Receiver.antt =====
-- src/transport/receiver.rs.
pub mod Loss
pub mod Peer
pub mod Engine
pub mod Feedback
pub mod Run
