-- ===== src/Crypto.antt =====
-- src/crypto: the anti-replay window and the session keys.
pub mod Replay
pub mod Session
