-- ===== src/Protocol/Codec/Nibble/Samples.antt =====
-- The bytes of a 16-bit sample.
use remote_au.Common.{ℕ, ◌<◌, ◌≡◌, arith}
use remote_au.Protocol.Codec.Nibble.{i16_from_le, low_word, low_byte, high_byte}

pub i16_from_le-bytes :
    (lo hi : ℕ)
    → lo < 256
    → hi < 256
    → (low_byte (i16_from_le lo hi) ≡ lo) × (high_byte (i16_from_le lo hi) ≡ hi)
unfolding i16_from_le low_byte high_byte low_word
i16_from_le-bytes lo hi hl hh = ground arith
