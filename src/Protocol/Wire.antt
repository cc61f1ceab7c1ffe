-- ===== src/Protocol/Wire.antt =====
-- src/protocol/wire.rs: the packet header and the four bodies, as big-endian bytes.
pub mod Header
pub mod Bodies
pub mod Names
pub mod Tests
