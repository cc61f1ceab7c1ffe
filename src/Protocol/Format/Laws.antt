-- ===== src/Protocol/Format/Laws.antt =====
-- Headers and the audio formats as read from the wire, and the splitter of PCM (src/protocol/format.rs).
use remote_au.Common.{
  ℕ, zero, suc, ◌-◌, ◌%◌, ◌≤◌, ◌≡◌, refl, sym, ap, ==_iff, ◌∙◌, ◌↔◌, inl, inr, List, [], ◌∷◌, ◌++◌,
  length, take, drop, All, ◌==◌, Bool-cases, arith, length-take, length-drop, take-append-drop,
}
use remote_au.Protocol.Format.{
  AudioFormat, canonical, expected_payload_bytes, validate, require_wire, ok, max_pcm_chunk, chunks,
  split_pcm,
}
use mathlib.Core.List.{flatten}

-- `require_wire` accepts the canonical format and no other; that format is valid, and a packet of it
-- has 960 bytes.
pub require_wire_iff :
    (f : AudioFormat)
    → (require_wire f ≡ ok ↔ f ≡ canonical)
      × (validate canonical ≡ ok)
      × (expected_payload_bytes canonical ≡ max_pcm_chunk)
unfolding require_wire canonical validate expected_payload_bytes
require_wire_iff f = ((λ h. ground arith, λ e. rw e), refl, refl)

-- A chunk of the wire: whole frames of four bytes, one at least, 960 bytes at most.
abbrev pub IsChunk : List ℕ → Type 0
IsChunk c = (1 ≤ length c) × (length c ≤ max_pcm_chunk) × (length c % 4 ≡ 0)

chunks_lem :
    (fuel : ℕ) (xs : List ℕ)
    → length xs ≤ fuel
    → length xs % 4 ≡ 0
    → All IsChunk (chunks fuel xs) × (flatten (chunks fuel xs) ≡ xs)
unfolding chunks flatten
chunks_lem zero [] h d = (tt, refl)
chunks_lem zero (x ∷ xs) h d = absurd (omega arith)
chunks_lem (suc fuel) [] h d = (tt, refl)
chunks_lem (suc fuel) (x ∷ xs) h d =
    let front : length (take 959 xs) ≡ _ = length-take 959 xs in
    let back : length (drop 959 xs) ≡ _ = length-drop 959 xs in
    let rest = chunks_lem fuel (drop 959 xs) (omega (arith, back)) (omega (arith, back)) in
    (
      (omega (arith, front), rest.0),
      ap (λ (l : List ℕ). x ∷ (take 959 xs ++ l)) rest.1
          ∙ ap (λ (l : List ℕ). x ∷ l) (take-append-drop 959 xs),
    )

-- `split_pcm` cuts the whole frames of its input, in order, into chunks of whole frames that are
-- neither empty nor longer than 960 bytes; only a last incomplete frame is dropped.
pub split_pcm_lem :
    (pcm : List ℕ)
    → All IsChunk (split_pcm pcm)
      × (flatten (split_pcm pcm) ≡ take (length pcm - length pcm % 4) pcm)
unfolding split_pcm flatten
split_pcm_lem pcm =
    let usable = length pcm - length pcm % 4 in
    let size : length (take usable pcm) ≡ usable = omega (arith, length-take usable pcm) in
    elim (Bool-cases (usable == 0)) [
      | inl none_left ↦
          rw none_left (tt, ap (λ (n : ℕ). take n pcm) (sym ((==_iff usable 0).0 none_left)))
      | inr some_left ↦
          rw some_left
            (chunks_lem usable (take usable pcm) (omega (arith, size)) (omega (arith, size)))
    ]
