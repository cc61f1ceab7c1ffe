-- ===== src/Protocol/Codec/Mono/Sizes.antt =====
-- The sizes of encoded and decoded chunks.
use remote_au.Common.{
  ℕ, zero, suc, ◌+◌, ◌*◌, ◌/◌, ◌≤◌, ◌≡◌, refl, ap, ◌∙◌, true, false, some, List, [], ◌∷◌, set,
  replicate, length, length-replicate, length-drop, bit_and, leb, ◌==◌, if◌then◌else◌, drop, get_or,
  min, arith,
}
use remote_au.Common.Int.{ℤ, pos}
use remote_au.Protocol.Format.{max_pcm_chunk}
use remote_au.Protocol.Codec.Names.{codec_pcm, codec_adpcm48}
use remote_au.Protocol.Codec.Nibble.{Predictor, encode_nibble, decode_nibble, i16_from_le}
use remote_au.Protocol.Codec.Stereo.{encode_adpcm_stereo, adpcm48_bytes}
use remote_au.Protocol.Codec.Stereo.Sizes.{
  length-write_i16, length-encode_adpcm_stereo, Decodes, decode_adpcm_stereo-Decodes,
}
use remote_au.Protocol.Codec.Mono.{
  downsample_from, downsample_24k_mono, upsample_from, upsample_24k_mono, encode_samples,
  encode_adpcm_mono24, decode_samples, decode_adpcm_mono24, adpcm24_bytes, encode_canonical,
  decode_canonical,
}

length-downsample_from : (left i : ℕ) (pcm : List ℕ) → length (downsample_from left i pcm) ≡ left
unfolding downsample_from
length-downsample_from zero i pcm = refl
length-downsample_from (suc left) i pcm = ap suc (length-downsample_from left (i + 1) pcm)

length-encode_samples :
    (mono : List ℤ) (p : Predictor) (byte : ℕ)
    → (length (encode_samples mono p byte true) ≡ length mono / 2)
      × (length (encode_samples mono p byte false) ≡ (length mono + 1) / 2)
unfolding encode_samples
length-encode_samples [] p byte = (refl, refl)
length-encode_samples (s ∷ mono) p byte =
    let n = encode_nibble s p in
    (
      omega (arith, (length-encode_samples mono n.1 n.0).1),
      omega (arith, (length-encode_samples mono n.1 byte).0),
    )

length-upsample_from :
    (i : ℕ) (mono : List ℤ) (pcm : List ℕ) → length (upsample_from i mono pcm) ≡ length pcm
unfolding upsample_from
length-upsample_from i [] pcm = refl
length-upsample_from i (s ∷ mono) pcm =
    length-upsample_from (i + 1) mono _
    ∙ length-write_i16 _ _ _ _
    ∙ length-write_i16 _ _ _ _
    ∙ length-write_i16 _ _ _ _
    ∙ length-write_i16 _ _ _ _

length-encode_adpcm_mono24 : (pcm : List ℕ) → length (encode_adpcm_mono24 pcm) ≡ adpcm24_bytes
unfolding encode_adpcm_mono24 downsample_24k_mono
length-encode_adpcm_mono24 pcm =
    let n =
      length-encode_samples (downsample_24k_mono pcm)
        (record { pred = get_or (downsample_24k_mono pcm) 0 (pos 0); index = 0 }) 0 in
    omega (arith, n.0, length-downsample_from 120 0 pcm)

decode_samples_lem :
    (bytes : List ℕ) (n : ℕ) (p : Predictor) (mono : List ℤ)
    → n + 2 * length bytes ≡ 120
    → (out : List ℤ) × (decode_samples bytes n p mono ≡ some (120, out))
unfolding decode_samples
decode_samples_lem [] n p mono h = (mono, ap (λ k. some (k, mono)) (omega (arith, h)))
decode_samples_lem (byte ∷ bytes) n p mono h =
    let a = decode_nibble (bit_and byte 15) p in
    let b = decode_nibble (byte / 16) a in
    let (out, e) =
      decode_samples_lem bytes (n + 2) b (set (set mono n a.pred) (n + 1) b.pred)
        (omega (arith, h)) in
    (out, rw inside e)
  where
    inside : leb 120 (n + 1) ≡ false
    inside = ground (arith, h)

decode_adpcm_mono24-Decodes :
    (payload : List ℕ) → length payload ≡ adpcm24_bytes → Decodes (decode_adpcm_mono24 payload) 960
unfolding decode_adpcm_mono24 upsample_24k_mono
decode_adpcm_mono24-Decodes payload h =
    let (mono, e) =
      decode_samples_lem (drop 4 payload) 0
        (record {
          pred = i16_from_le (get_or payload 0 0) (get_or payload 1 0);
          index = min (get_or payload 2 0) 88;
        })
        (replicate 120 (pos 0)) (omega (arith, h, length-drop 4 payload)) in
    (
      upsample_24k_mono mono (replicate 960 0),
      rw (sized, e) refl,
      length-upsample_from 0 mono (replicate 960 0) ∙ length-replicate {A = ℕ} 960 0,
    )
  where
    sized : (length payload == adpcm24_bytes) ≡ true
    sized = ground (arith, h)

-- The size of a codec's payload.
abbrev pub payload_bytes : ℕ → ℕ
payload_bytes codec =
    if codec == codec_pcm
    then 960
    else if codec == codec_adpcm48
    then adpcm48_bytes
    else adpcm24_bytes

-- A chunk of 960 bytes has an encoding under each of the three codecs, of 960, 246 and 64 bytes, and that decodes to a chunk of 960 bytes.
pub decode_canonical-encode_canonical :
    (codec : ℕ) (pcm : List ℕ)
    → codec ≤ 2
    → length pcm ≡ max_pcm_chunk
    → (payload : List ℕ) × (encode_canonical codec pcm ≡ some payload)
      × (length payload ≡ payload_bytes codec)
      × Decodes (decode_canonical codec payload) max_pcm_chunk
unfolding encode_canonical decode_canonical
decode_canonical-encode_canonical zero pcm h n = (pcm, rw n refl, n, (pcm, rw n refl, n))
decode_canonical-encode_canonical (suc zero) pcm h n =
    let s = length-encode_adpcm_stereo pcm in
    let (out, e, m) = decode_adpcm_stereo-Decodes _ s in
    (encode_adpcm_stereo pcm, rw n refl, s, (out, rw s e, m))
decode_canonical-encode_canonical (suc (suc zero)) pcm h n =
    let s = length-encode_adpcm_mono24 pcm in
    let (out, e, m) = decode_adpcm_mono24-Decodes _ s in
    (encode_adpcm_mono24 pcm, rw n refl, s, (out, rw s e, m))
decode_canonical-encode_canonical (suc (suc (suc codec))) pcm h n = absurd (omega arith)
