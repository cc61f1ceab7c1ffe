-- ===== src/Protocol.antt =====
-- src/protocol: the fixed audio format, the packet layout and its bodies, and the audio codecs.
pub mod Format
pub mod Wire
pub mod Codec
