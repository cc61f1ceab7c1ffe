-- ===== src/Protocol/Wire/Names/RoundTrip.antt =====
-- What `clip_name` keeps, and the hello body's round trip.
use remote_au.Common.{
  ℕ, ◌+◌, ◌≤◌, ◌<◌, ◌≡◌, refl, ap, inl, inr, some, List, [], ◌∷◌, ◌++◌, length, Bool-cases, ltb,
  le→ltb, ltb→lt, ltb→le, arith, length-append, take-length, ◌>>=◌,
}
use remote_au.Common.Bytes.{get_range}
use remote_au.Common.Utf8.{encode_utf8, as_bytes, IsText, from_utf8-as_bytes}
use remote_au.Protocol.Wire.Names.{clip_from, clip_name, encode_hello, decode_hello}

-- After `n` bytes the next character does not fit into 64, if there is one.
abbrev pub NoRoom : ℕ → List ℕ → Type 0
NoRoom n [] = Unit {0}
NoRoom n (c ∷ cs) = 64 < n + length (encode_utf8 c)

-- `out` is the longest front part of `name` that fits behind `used` bytes.
pub record Clips (used : ℕ) (name out : List ℕ) : Type 0 where
  pub left : List ℕ
  pub parts : name ≡ out ++ left
  pub fits : used + length (as_bytes out) ≤ 64
  pub full : NoRoom (used + length (as_bytes out)) left

clip_from-Clips : (used : ℕ) (name : List ℕ) → used ≤ 64 → Clips used name (clip_from used name)
unfolding clip_from
clip_from-Clips used [] h = record { left = []; parts = refl; fits = omega arith; full = tt }
clip_from-Clips used (c ∷ cs) h = elim (Bool-cases (ltb 64 (used + length (encode_utf8 c)))) [
  | inl over ↦ rw over (record {
    left = c ∷ cs;
    parts = refl;
    fits = omega arith;
    full = omega (arith, ltb→lt _ _ over);
  })
  | inr room ↦ rw room (more (clip_from-Clips (used + length (encode_utf8 c)) cs (ltb→le _ _ room)))
]
  where
    more :
        Clips (used + length (encode_utf8 c)) cs (clip_from (used + length (encode_utf8 c)) cs)
        → Clips used (c ∷ cs) (c ∷ clip_from (used + length (encode_utf8 c)) cs)
    more r =
        let size : used
              + length (encode_utf8 c)
              + length (as_bytes (clip_from (used + length (encode_utf8 c)) cs))
            ≡ used
              + length (encode_utf8 c ++ as_bytes (clip_from (used + length (encode_utf8 c)) cs)) =
          omega (
            arith,
            length-append (encode_utf8 c) (as_bytes (clip_from (used + length (encode_utf8 c)) cs)),
          ) in
        record {
          left = r.left;
          parts = ap (λ l. c ∷ l) r.parts;
          fits = omega (arith, size, r.fits);
          full = rw (← size) r.full;
        }

-- `clip_name` keeps whole characters: the longest front part of the name of at most 64 bytes.
pub clip_name-Clips : (name : List ℕ) → Clips 0 name (clip_name name)
unfolding clip_name
clip_name-Clips name = clip_from-Clips 0 name (omega arith)

clip_from-IsText : (used : ℕ) (name : List ℕ) → IsText name → IsText (clip_from used name)
unfolding clip_from
clip_from-IsText used [] h = tt
clip_from-IsText used (c ∷ cs) (hc, hs) =
    elim (Bool-cases (ltb 64 (used + length (encode_utf8 c)))) [
      | inl over ↦ rw over tt
      | inr room ↦ rw room (hc, clip_from-IsText (used + length (encode_utf8 c)) cs hs)
    ]

pub clip_name-IsText : (name : List ℕ) → IsText name → IsText (clip_name name)
unfolding clip_name
clip_name-IsText name h = clip_from-IsText 0 name h

-- The hello body of any text decodes to its clipped name: `encode_hello` never fails on one.
pub decode_hello-encode_hello :
    (name : List ℕ) → IsText name → (encode_hello name >>= decode_hello) ≡ some (clip_name name)
unfolding encode_hello decode_hello get_range
decode_hello-encode_hello name h =
    let size : length (as_bytes (clip_name name)) ≤ 64 =
      omega (arith, (clip_name-Clips name).fits) in
    rw (le→ltb 64 _ size) (
      ground (
        arith,
        take-length (as_bytes (clip_name name)),
        from_utf8-as_bytes (clip_name name) (clip_name-IsText name h),
      ))

pub length-encode_hello : (name body : List ℕ) → encode_hello name ≡ some body → length body ≤ 65
unfolding encode_hello
length-encode_hello name body h = elim (Bool-cases (ltb 64 (length (as_bytes (clip_name name))))) [
  | inl long ↦ absurd (let a = simp long at h in cc)
  | inr short ↦
      let same : body ≡ length (as_bytes (clip_name name)) ∷ as_bytes (clip_name name) =
        (let a = simp short at h in cc) in
      rw same (let l = ltb→le 64 _ short in omega arith)
]
