-- ===== src/Daemon.antt =====
-- src/daemon/mod.rs: the choice of a receiver, the loops of the sending and the receiving daemon, discovery and control.
pub mod Select
pub mod Sending
pub mod Control
pub mod Serving
pub mod Discover
