-- ===== src/Protocol/Codec/Names.antt =====
-- src/protocol/codec.rs: the codec numbers.
use remote_au.Common.{ℕ}

abbrev pub codec_pcm : ℕ
codec_pcm = 0

abbrev pub codec_adpcm48 : ℕ
codec_adpcm48 = 1

abbrev pub codec_adpcm24 : ℕ
codec_adpcm24 = 2
