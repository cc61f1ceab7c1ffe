-- ===== src/Protocol/Codec/Stereo/Tracking.antt =====
-- The stereo codec of src/protocol/codec.rs: its two predictors beside each other.
use remote_au.Common.{
  ℕ, zero, suc, ◌+◌, ◌*◌, ◌/◌, ◌≤◌, ◌<◌, ◌≡◌, false, refl, ap, ◌∙◌, some, List, [], ◌∷◌, ◌++◌, All,
  get_or, replicate, length, length-append, bit_and, leb, arith,
}
use remote_au.Common.Bytes.{IsByte}
use remote_au.Protocol.Codec.Nibble.{
  low_byte, high_byte, i16_from_le, Predictor, encode_nibble, decode_nibble,
}
use remote_au.Protocol.Codec.Nibble.Samples.{i16_from_le-bytes}
use remote_au.Protocol.Codec.Nibble.Tracking.{decode_nibble-encode_nibble}
use remote_au.Protocol.Codec.Stereo.{
  read_i16, write_i16, pack, encode_frames, encode_adpcm_stereo, decode_frames, decode_adpcm_stereo,
  adpcm48_bytes,
}
use remote_au.Protocol.Codec.Stereo.Bytes.{low-pack, high-pack, write_i16_frame}
use mathlib.Core.List.{append_assoc}

-- The predictions of the encoder after each frame, as PCM bytes.
pub predictions : ℕ → ℕ → List ℕ → Predictor → Predictor → List ℕ
predictions zero frame pcm l r = []
predictions (suc left) frame pcm l r =
    let l = (encode_nibble (read_i16 pcm frame 0) l).1 in
    let r = (encode_nibble (read_i16 pcm frame 1) r).1 in
    low_byte l.pred
    ∷ high_byte l.pred
    ∷ low_byte r.pred
    ∷ high_byte r.pred
    ∷ predictions left (frame + 1) pcm l r

decode_step :
    (byte frame : ℕ) (bytes pcm : List ℕ) (l r l' r' : Predictor)
    → frame < 240
    → decode_nibble (bit_and byte 15) l ≡ l'
    → decode_nibble (byte / 16) r ≡ r'
    → decode_frames (byte ∷ bytes) frame l r pcm
      ≡ decode_frames bytes
          (frame + 1)
          l'
          r'
          (write_i16 (write_i16 pcm frame 0 l'.pred) frame 1 r'.pred)
unfolding decode_frames
decode_step byte frame bytes pcm l r l' r' h el er = rw inside (simp (el, er) refl)
  where
    inside : leb 240 frame ≡ false
    inside = ground arith

-- The frames decode behind those written so far.
decode_frames-encode_frames :
    (left frame : ℕ) (pcm done : List ℕ) (l r : Predictor)
    → length done ≡ 4 * frame
    → frame + left ≤ 240
    → decode_frames (encode_frames left frame pcm l r) frame l r (done ++ replicate (4 * left) 0)
      ≡ some (done ++ predictions left frame pcm l r)
unfolding encode_frames predictions
decode_frames-encode_frames zero frame pcm done l r h b = unfold decode_frames in refl
decode_frames-encode_frames (suc left) frame pcm done l r h b =
    let nl = decode_nibble-encode_nibble (read_i16 pcm frame 0) l in
    let nr = decode_nibble-encode_nibble (read_i16 pcm frame 1) r in
    let packed : ℕ = pack (el.0) (er.0) in
    decode_step packed frame (encode_frames left (frame + 1) pcm el.1 er.1) _ l r el.1 er.1
      (omega (arith, b)) (ap (λ n. decode_nibble n l) (low-pack el.0 er.0 nl.0 nr.0) ∙ nl.1)
      (ap (λ n. decode_nibble n r) (high-pack el.0 er.0 nl.0 nr.0) ∙ nr.1)
    ∙ ap (λ z. decode_frames (encode_frames left (frame + 1) pcm el.1 er.1) (frame + 1) el.1 er.1 z)
        (ap
            (λ (n : ℕ).
              write_i16 (write_i16 (done ++ replicate n 0) frame 0 el.1.pred) frame 1 er.1.pred)
            four
          ∙ write_i16_frame done (replicate (4 * left) 0) 0 0 0 0 frame el.1.pred er.1.pred h)
    ∙ decode_frames-encode_frames left (frame + 1) pcm (done ++ written) el.1 er.1
        (omega (arith, h, length-append done written)) (omega (arith, b))
    ∙ ap some (append_assoc done written (predictions left (frame + 1) pcm el.1 er.1))
  where
    el : ℕ × Predictor
    el = encode_nibble (read_i16 pcm frame 0) l

    er : ℕ × Predictor
    er = encode_nibble (read_i16 pcm frame 1) r

    written : List ℕ
    written =
        low_byte el.1.pred ∷ high_byte el.1.pred ∷ low_byte er.1.pred ∷ high_byte er.1.pred ∷ []

    four : 4 * suc left ≡ suc (suc (suc (suc (4 * left))))
    four = omega arith

pub length-encode_frames :
    (left frame : ℕ) (pcm : List ℕ) (l r : Predictor)
    → length (encode_frames left frame pcm l r) ≡ left
unfolding encode_frames
length-encode_frames zero frame pcm l r = refl
length-encode_frames (suc left) frame pcm l r =
    ap suc (length-encode_frames left (frame + 1) pcm _ _)

get_or-IsByte : (xs : List ℕ) (i : ℕ) → All IsByte xs → get_or xs i 0 < 256
get_or-IsByte [] i h = omega arith
get_or-IsByte (x ∷ xs) zero h = h.0
get_or-IsByte (x ∷ xs) (suc i) h = get_or-IsByte xs i h.1

read_i16-bytes :
    (pcm : List ℕ) (frame channel : ℕ)
    → All IsByte pcm
    → let s = read_i16 pcm frame channel in i16_from_le (low_byte s) (high_byte s) ≡ s
unfolding read_i16
read_i16-bytes pcm frame channel h =
    let i : ℕ = (frame * 2 + channel) * 2 in
    let (lo, hi) =
      i16_from_le-bytes (get_or pcm i 0) (get_or pcm (i + 1) 0) (get_or-IsByte pcm i h)
        (get_or-IsByte pcm (i + 1) h) in
    ap (λ n. i16_from_le n (high_byte (read_i16 pcm frame channel))) lo
    ∙ ap (i16_from_le (get_or pcm i 0)) hi

-- The state of a channel at the start of a packet.
abbrev pub first : List ℕ → ℕ → Predictor
first pcm channel = record { pred = read_i16 pcm 0 channel; index = 0 }

-- A stereo ADPCM packet has 246 bytes, and the decoder makes of it exactly the predictions that the encoder had after each of the 240 frames: the two never drift apart.
pub decode_adpcm_stereo-encode_adpcm_stereo :
    (pcm : List ℕ)
    → All IsByte pcm
    → (length (encode_adpcm_stereo pcm) ≡ adpcm48_bytes)
      × (decode_adpcm_stereo (encode_adpcm_stereo pcm)
          ≡ some (predictions 240 0 pcm (first pcm 0) (first pcm 1)))
unfolding encode_adpcm_stereo decode_adpcm_stereo
decode_adpcm_stereo-encode_adpcm_stereo pcm h =
    let n = length-encode_frames 240 0 pcm (first pcm 0) (first pcm 1) in
    (
      omega (arith, n),
      rw (n, read_i16-bytes pcm 0 0 h, read_i16-bytes pcm 0 1 h)
          (decode_frames-encode_frames 240 0 pcm [] (first pcm 0) (first pcm 1) refl (omega arith)),
    )
