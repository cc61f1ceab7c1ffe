-- ===== src/Protocol/Codec/Stereo/Sizes.antt =====
-- The sizes of stereo packets, and of what they decode to.
use remote_au.Common.{
  ℕ, suc, ◌+◌, ◌/◌, ◌≤◌, ◌≡◌, refl, ap, ◌∙◌, true, false, Option, some, List, [], ◌∷◌, replicate,
  length, length-set, length-replicate, length-drop, bit_and, leb, ◌==◌, drop, get_or, min, arith,
}
use remote_au.Common.Int.{ℤ}
use remote_au.Protocol.Codec.Nibble.{Predictor, decode_nibble, i16_from_le}
use remote_au.Protocol.Codec.Stereo.{
  write_i16, encode_adpcm_stereo, decode_frames, decode_adpcm_stereo, adpcm48_bytes,
}
use remote_au.Protocol.Codec.Stereo.Tracking.{length-encode_frames}

pub length-write_i16 :
    (pcm : List ℕ) (frame channel : ℕ) (s : ℤ) → length (write_i16 pcm frame channel s) ≡ length pcm
unfolding write_i16
length-write_i16 pcm frame channel s = length-set _ _ _ ∙ length-set _ _ _

pub length-encode_adpcm_stereo : (pcm : List ℕ) → length (encode_adpcm_stereo pcm) ≡ adpcm48_bytes
unfolding encode_adpcm_stereo
length-encode_adpcm_stereo pcm =
    ap (λ n. suc (suc (suc (suc (suc (suc n)))))) (length-encode_frames 240 0 pcm _ _)

-- A decoder that returns a chunk of `size` bytes.
abbrev pub Decodes : Option (List ℕ) → ℕ → Type 0
Decodes o size = (out : List ℕ) × (o ≡ some out) × (length out ≡ size)

decode_frames-Decodes :
    (bytes : List ℕ) (frame : ℕ) (l r : Predictor) (pcm : List ℕ)
    → frame + length bytes ≤ 240
    → Decodes (decode_frames bytes frame l r pcm) (length pcm)
unfolding decode_frames
decode_frames-Decodes [] frame l r pcm h = (pcm, refl, refl)
decode_frames-Decodes (byte ∷ bytes) frame l r pcm h =
    let l' = decode_nibble (bit_and byte 15) l in
    let r' = decode_nibble (byte / 16) r in
    let (out, e, n) =
      decode_frames-Decodes bytes (frame + 1) l' r'
        (write_i16 (write_i16 pcm frame 0 l'.pred) frame 1 r'.pred) (omega (arith, h)) in
    (out, rw inside e, n ∙ length-write_i16 _ _ _ _ ∙ length-write_i16 _ _ _ _)
  where
    inside : leb 240 frame ≡ false
    inside = ground (arith, h)

pub decode_adpcm_stereo-Decodes :
    (payload : List ℕ) → length payload ≡ adpcm48_bytes → Decodes (decode_adpcm_stereo payload) 960
unfolding decode_adpcm_stereo
decode_adpcm_stereo-Decodes payload h =
    let (out, e, n) =
      decode_frames-Decodes (drop 6 payload) 0
        (record {
          pred = i16_from_le (get_or payload 0 0) (get_or payload 1 0);
          index = min (get_or payload 2 0) 88;
        })
        (record {
          pred = i16_from_le (get_or payload 3 0) (get_or payload 4 0);
          index = min (get_or payload 5 0) 88;
        })
        (replicate 960 0) (omega (arith, h, length-drop 6 payload)) in
    (out, rw sized e, n ∙ length-replicate {A = ℕ} 960 0)
  where
    sized : (length payload == adpcm48_bytes) ≡ true
    sized = ground (arith, h)
