-- ===== src/Transport/Adapt.antt =====
-- src/transport/adapt.rs: the probe plan, the sustainable rate, and the two adaptation loops.
-- An f32 is a parameter (`LossFloat`), an `Instant` is its microseconds.
pub mod Probe
pub mod State
pub mod Tests
