-- ===== src/Protocol/Codec/Mono.antt =====
-- src/protocol/codec.rs: the mono ADPCM packet at half the rate, `encode_canonical` and `decode_canonical`.
pub mod Sizes
use remote_au.Common.{
  ℕ, zero, suc, ◌+◌, ◌*◌, ◌/◌, Bool, true, false, Option, none, some, List, [], ◌∷◌, ◌++◌, drop,
  get_or, set, replicate, length, min, bit_and, leb, ◌==◌, if◌then◌else◌, ◌>>=◌,
}
use remote_au.Common.Int.{ℤ, pos, negsuc, ◌+ℤ◌, ◌-ℤ◌}
use remote_au.Protocol.Format.{max_pcm_chunk}
use remote_au.Protocol.Codec.Names.{codec_pcm, codec_adpcm48, codec_adpcm24}
use remote_au.Protocol.Codec.Nibble.{
  i16_from_le, low_byte, high_byte, Predictor, encode_nibble, decode_nibble,
}
use remote_au.Protocol.Codec.Stereo.{
  read_i16, write_i16, pack, encode_adpcm_stereo, decode_adpcm_stereo, adpcm48_bytes,
}

abbrev pub adpcm24_bytes : ℕ
adpcm24_bytes = 64

-- `/ 4` rounds towards zero, and `as i16` keeps 16 bits.
quarter : ℤ → ℤ
quarter (pos n) = pos (n / 4)
quarter (negsuc n) = pos 0 -ℤ pos ((n + 1) / 4)

as_i16 : ℤ → ℤ
as_i16 z = i16_from_le (low_byte z) (high_byte z)

-- `downsample_24k_mono`, with `left` samples to go.
downsample_from : ℕ → ℕ → List ℕ → List ℤ
downsample_from zero i pcm = []
downsample_from (suc left) i pcm =
    let a = read_i16 pcm (i * 2) 0 +ℤ read_i16 pcm (i * 2) 1 in
    let b = read_i16 pcm (i * 2 + 1) 0 +ℤ read_i16 pcm (i * 2 + 1) 1 in
    as_i16 (quarter (a +ℤ b)) ∷ downsample_from left (i + 1) pcm

pub downsample_24k_mono : List ℕ → List ℤ
downsample_24k_mono = downsample_from 120 0

upsample_from : ℕ → List ℤ → List ℕ → List ℕ
upsample_from i [] pcm = pcm
upsample_from i (s ∷ mono) pcm = upsample_from (i + 1) mono (
    write_i16 (write_i16 (write_i16 (write_i16 pcm (i * 2) 0 s) (i * 2) 1 s) (i * 2 + 1) 0 s)
      (i * 2 + 1) 1 s)

pub upsample_24k_mono : List ℤ → List ℕ → List ℕ
upsample_24k_mono = upsample_from 0

-- The loop over the samples; `first` is `which == 0`.
encode_samples : List ℤ → Predictor → ℕ → Bool → List ℕ
encode_samples [] p byte first = []
encode_samples (s ∷ mono) p byte true =
    let n = encode_nibble s p in encode_samples mono n.1 n.0 false
encode_samples (s ∷ mono) p byte false =
    let n = encode_nibble s p in pack byte n.0 ∷ encode_samples mono n.1 byte true

pub encode_adpcm_mono24 : List ℕ → List ℕ
encode_adpcm_mono24 pcm =
    let mono = downsample_24k_mono pcm in
    let pred = get_or mono 0 (pos 0) in
    low_byte pred
    ∷ high_byte pred
    ∷ 0
    ∷ 0
    ∷ encode_samples mono (record { pred = pred; index = 0 }) 0 true

-- The loop over the bytes: `n` and `mono` at its end.
decode_samples : List ℕ → ℕ → Predictor → List ℤ → Option (ℕ × List ℤ)
decode_samples [] n p mono = some (n, mono)
decode_samples (byte ∷ bytes) n p mono =
    let a = decode_nibble (bit_and byte 15) p in
    let b = decode_nibble (byte / 16) a in
    let rest = decode_samples bytes (n + 2) b (set (set mono n a.pred) (n + 1) b.pred) in
    if leb 120 (n + 1) then none else rest

pub decode_adpcm_mono24 : List ℕ → Option (List ℕ)
decode_adpcm_mono24 payload =
    let at = get_or payload in
    let p : Predictor = record { pred = i16_from_le (at 0 0) (at 1 0); index = min (at 2 0) 88 } in
    let samples = decode_samples (drop 4 payload) 0 p (replicate 120 (pos 0)) in
    if length payload == adpcm24_bytes
    then (do
      (n, mono) ← samples
      if n == 120 then some (upsample_24k_mono mono (replicate 960 0)) else none)
    else none

pub encode_canonical : ℕ → List ℕ → Option (List ℕ)
encode_canonical codec pcm960 =
    if length pcm960 == max_pcm_chunk
    then (if codec == codec_pcm
        then some pcm960
        else if codec == codec_adpcm48
        then some (encode_adpcm_stereo pcm960)
        else if codec == codec_adpcm24
        then some (encode_adpcm_mono24 pcm960)
        else none)
    else none

pub decode_canonical : ℕ → List ℕ → Option (List ℕ)
decode_canonical codec payload =
    if codec == codec_pcm
    then (if length payload == max_pcm_chunk then some payload else none)
    else if codec == codec_adpcm48
    then (if length payload == adpcm48_bytes then decode_adpcm_stereo payload else none)
    else if codec == codec_adpcm24
    then (if length payload == adpcm24_bytes then decode_adpcm_mono24 payload else none)
    else none
