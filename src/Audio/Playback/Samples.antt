-- ===== src/Audio/Playback/Samples.antt =====
-- What an i16 device is given of a session (src/audio/pcm.rs).
use native.Mathlib.Nat.{div-add-mod, mod-lt, mod-one}
use remote_au.Common.{
  ℕ, zero, suc, ◌+◌, ◌*◌, ◌/◌, ◌%◌, ◌<◌, ◌≤◌, ◌≡◌, ◌∙◌, refl, sym, ap, inl, inr, true, ◌==◌, List,
  [], ◌∷◌, length, ltb, max, get_or, drop, if◌then◌else◌, Bool-cases, lt→ltb, arith,
}
use mathlib.Core.Path.{ap₂}
use remote_au.Audio.Playback.{sample_for, fill_from, fill_device_i16_from_session_i16}
use remote_au.Common.Int.{ℤ}
use remote_au.Protocol.Codec.Nibble.{i16_from_le}

-- The samples that bytes hold.
abbrev pub samples : List ℕ → List ℤ
samples [] = []
samples (lo ∷ []) = []
samples (lo ∷ hi ∷ bytes) = i16_from_le lo hi ∷ samples bytes

-- The bytes at an index, in what is left of them.
bytes_left :
    (xs : List ℕ) (i : ℕ)
    → i + 1 < length xs
    → drop i xs ≡ get_or xs i 0 ∷ get_or xs (suc i) 0 ∷ drop (suc (suc i)) xs
bytes_left [] i h = absurd (omega arith)
bytes_left (x ∷ xs) (suc i) h = bytes_left xs i (omega arith)
bytes_left (x ∷ []) zero h = absurd (omega arith)
bytes_left (x ∷ y ∷ xs) zero h = refl

drop_all : (xs : List ℕ) (n : ℕ) → length xs ≤ n → drop n xs ≡ []
drop_all [] zero h = refl
drop_all [] (suc n) h = refl
drop_all (x ∷ xs) zero h = absurd (omega arith)
drop_all (x ∷ xs) (suc n) h = drop_all xs n (omega arith)

module _ (session : List ℕ) (channels : ℕ) (some_channel : 0 < channels) where
  one_channel : (index : ℕ) → (if channels == 1 then 0 else index % channels) ≡ index % channels
  one_channel index = elim (Bool-cases (channels == 1)) [
    | inl one ↦ (let c : channels ≡ 1 = ground (arith, one) in rw c (simp (mod-one index) refl))
    | inr more ↦ simp more refl
  ]

  sample_for-same :
      (index : ℕ)
      → index * 2 + 1 < length session
      → sample_for session channels channels index
        ≡ i16_from_le (get_or session (index * 2) 0) (get_or session (index * 2 + 1) 0)
  unfolding sample_for
  sample_for-same index h =
      let m : max channels 1 ≡ channels = omega arith in
      let d : index / channels * channels + index % channels ≡ index =
        omega (arith, div-add-mod index channels) in
      let a : ltb (index % channels) channels ≡ true =
        lt→ltb (index % channels) channels (mod-lt index some_channel) in
      let b : ltb (index * 2 + 1) (length session) ≡ true =
        lt→ltb (index * 2 + 1) (length session) h in
      rw (m, one_channel index, d, a, b) refl

  fill_from-samples :
      (out : List ℤ) (index : ℕ)
      → (index + length out) * 2 ≡ length session
      → fill_from index out session channels channels ≡ samples (drop (index * 2) session)
  unfolding fill_from
  fill_from-samples [] index h = sym (ap samples (drop_all session (index * 2) (omega (arith, h))))
  fill_from-samples (old ∷ out) index h =
      let inside : index * 2 + 1 < length session = omega (arith, h) in
      let next : index * 2 + 1 ≡ suc (index * 2) = omega arith in
      let after : (index + 1) * 2 ≡ suc (suc (index * 2)) = omega arith in
      let here = bytes_left session (index * 2) inside in
      let first = sample_for-same index inside in
      let rest = fill_from-samples out (index + 1) (omega (arith, h)) in
      ap₂ (λ x xs. x ∷ xs) first rest ∙ rw (next, after, here) refl

  -- A device with as many channels as the session, at least one, and a sample for every two bytes of the session, is given the session's samples, all of them and in order.
  pub fill_device-samples :
      (device_out : List ℤ)
      → length device_out * 2 ≡ length session
      → fill_device_i16_from_session_i16 device_out session channels channels ≡ samples session
  unfolding fill_device_i16_from_session_i16
  fill_device-samples device_out h = fill_from-samples device_out 0 (omega (arith, h))
