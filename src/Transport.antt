-- ===== src/Transport.antt =====
-- src/transport: link adaptation, sealed packets, and the two engines.
pub mod Adapt
pub mod Packet
pub mod Sender
pub mod Receiver
pub mod Exchange
