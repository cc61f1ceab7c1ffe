-- ===== src/Protocol/Codec/Stereo.antt =====
-- src/protocol/codec.rs: the stereo ADPCM packet. The PCM chunk has 960 bytes, 240 frames of two samples, so no index is out of range.
pub mod Bytes
pub mod Tracking
pub mod Sizes
use remote_au.Common.{
  ℕ, zero, suc, ◌+◌, ◌*◌, ◌/◌, ◌%◌, Option, none, some, List, [], ◌∷◌, ◌++◌, drop, get_or, set,
  replicate, length, min, bit_and, bit_or, leb, ◌==◌, if◌then◌else◌,
}
use remote_au.Common.Int.{ℤ}
use remote_au.Protocol.Codec.Nibble.{
  i16_from_le, low_byte, high_byte, Predictor, encode_nibble, decode_nibble,
}

abbrev pub adpcm48_bytes : ℕ
adpcm48_bytes = 246

pub read_i16 : List ℕ → ℕ → ℕ → ℤ
read_i16 pcm frame channel =
    let i = (frame * 2 + channel) * 2 in i16_from_le (get_or pcm i 0) (get_or pcm (i + 1) 0)

pub write_i16 : List ℕ → ℕ → ℕ → ℤ → List ℕ
write_i16 pcm frame channel sample =
    let i = (frame * 2 + channel) * 2 in
    set (set pcm i (low_byte sample)) (i + 1) (high_byte sample)

-- `nl | (nr << 4)` in a u8.
abbrev pub pack : ℕ → ℕ → ℕ
pack lo hi = bit_or lo (hi * 16 % 256)

-- The loop over the frames, with `left` frames to go.
pub encode_frames : ℕ → ℕ → List ℕ → Predictor → Predictor → List ℕ
encode_frames zero frame pcm l r = []
encode_frames (suc left) frame pcm l r =
    let nl = encode_nibble (read_i16 pcm frame 0) l in
    let nr = encode_nibble (read_i16 pcm frame 1) r in
    pack (nl.0) (nr.0) ∷ encode_frames left (frame + 1) pcm (nl.1) (nr.1)

pub encode_adpcm_stereo : List ℕ → List ℕ
encode_adpcm_stereo pcm =
    let l = read_i16 pcm 0 0 in
    let r = read_i16 pcm 0 1 in
    low_byte l
    ∷ high_byte l
    ∷ 0
    ∷ low_byte r
    ∷ high_byte r
    ∷ 0
    ∷ encode_frames 240 0 pcm (record { pred = l; index = 0 }) (record { pred = r; index = 0 })

pub decode_frames : List ℕ → ℕ → Predictor → Predictor → List ℕ → Option (List ℕ)
decode_frames [] frame l r pcm = some pcm
decode_frames (byte ∷ bytes) frame l r pcm =
    let l = decode_nibble (bit_and byte 15) l in
    let r = decode_nibble (byte / 16) r in
    let rest =
      decode_frames bytes (frame + 1) l r
        (write_i16 (write_i16 pcm frame 0 l.pred) frame 1 r.pred) in
    if leb 240 frame then none else rest

pub decode_adpcm_stereo : List ℕ → Option (List ℕ)
decode_adpcm_stereo payload =
    let at = get_or payload in
    let l : Predictor = record { pred = i16_from_le (at 0 0) (at 1 0); index = min (at 2 0) 88 } in
    let r : Predictor = record { pred = i16_from_le (at 3 0) (at 4 0); index = min (at 5 0) 88 } in
    if length payload == adpcm48_bytes
    then decode_frames (drop 6 payload) 0 l r (replicate 960 0)
    else none
