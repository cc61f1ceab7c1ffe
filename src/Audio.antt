-- ===== src/Audio.antt =====
-- src/audio: the byte queue between a device and the rest, and the playback callback.
pub mod Ring
pub mod Playback
