-- ===== src/Protocol/Codec.antt =====
-- src/protocol/codec.rs: PCM16 and the packet-local ADPCM.
pub mod Names
pub mod Nibble
pub mod Stereo
pub mod Mono
pub mod Tests
