-- ===== src/Mixer.antt =====
-- src/mixer: the jitter buffer of one stream, and the mixer over the streams.
pub mod Jitter
pub mod Pull
pub mod Streams
