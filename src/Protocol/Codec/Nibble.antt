-- ===== src/Protocol/Codec/Nibble.antt =====
-- src/protocol/codec.rs: the ADPCM step, `encode_nibble` and `decode_nibble`, and 16-bit samples in bytes.
pub mod Tracking
pub mod Samples
use remote_au.Common.{
  ℕ, ◌+◌, ◌-◌, ◌*◌, ◌/◌, ◌%◌, ◌^◌, Bool, true, false, not, List, [], ◌∷◌, get_or, min, bit_and,
  bit_or, leb, ltb, ◌==◌, if◌then◌else◌,
}
use remote_au.Common.Int.{ℤ, pos, negsuc, ◌+ℤ◌, ◌-ℤ◌, pos_part, neg_part, ltb_ℤ}

pub index_table : List ℤ
index_table =
    negsuc 0
    ∷ negsuc 0
    ∷ negsuc 0
    ∷ negsuc 0
    ∷ pos 2
    ∷ pos 4
    ∷ pos 6
    ∷ pos 8
    ∷ negsuc 0
    ∷ negsuc 0
    ∷ negsuc 0
    ∷ negsuc 0
    ∷ pos 2
    ∷ pos 4
    ∷ pos 6
    ∷ pos 8
    ∷ []

pub step_table : List ℕ
step_table =
    7 ∷ 8 ∷ 9 ∷ 10 ∷ 11 ∷ 12 ∷ 13 ∷ 14 ∷ 16 ∷ 17 ∷ 19 ∷ 21 ∷ 23 ∷ 25 ∷ 28 ∷ 31 ∷ 34 ∷ 37 ∷ 41 ∷ 45
    ∷ 50 ∷ 55 ∷ 60 ∷ 66 ∷ 73 ∷ 80 ∷ 88 ∷ 97 ∷ 107 ∷ 118 ∷ 130 ∷ 143 ∷ 157 ∷ 173 ∷ 190 ∷ 209 ∷ 230
    ∷ 253 ∷ 279 ∷ 307 ∷ 337 ∷ 371 ∷ 408 ∷ 449 ∷ 494 ∷ 544 ∷ 598 ∷ 658 ∷ 724 ∷ 796 ∷ 876 ∷ 963 ∷ 1060
    ∷ 1166 ∷ 1282 ∷ 1411 ∷ 1552 ∷ 1707 ∷ 1878 ∷ 2066 ∷ 2272 ∷ 2499 ∷ 2749 ∷ 3024 ∷ 3327 ∷ 3660
    ∷ 4026 ∷ 4428 ∷ 4871 ∷ 5358 ∷ 5894 ∷ 6484 ∷ 7132 ∷ 7845 ∷ 8630 ∷ 9493 ∷ 10442 ∷ 11487 ∷ 12635
    ∷ 13899 ∷ 15289 ∷ 16818 ∷ 18500 ∷ 20350 ∷ 22385 ∷ 24623 ∷ 27086 ∷ 29794 ∷ 32767 ∷ []

-- `i16::from_le_bytes`.
unfoldable pub i16_from_le : ℕ → ℕ → ℤ
i16_from_le lo hi = let u = lo + hi * 256 in if ltb u 32768 then pos u else negsuc (65535 - u)

-- The 16 bits of `as i16`, and its bytes in `to_le_bytes`.
pub low_word : ℤ → ℕ
low_word (pos n) = n % 65536
low_word (negsuc n) = 65535 - n % 65536

pub low_byte : ℤ → ℕ
low_byte z = low_word z % 256

pub high_byte : ℤ → ℕ
high_byte z = low_word z / 256

pub clamp_sample : ℤ → ℤ
clamp_sample z =
    if ltb_ℤ z (negsuc 32767) then negsuc 32767 else if ltb_ℤ (pos 32767) z then pos 32767 else z

-- `clamp(0, 88)`.
pub clamp_index : ℤ → ℕ
clamp_index z = min (pos_part z) 88

-- `pred` and `index`, the two variables of a channel.
pub record Predictor : Type 0 where
  pub pred : ℤ
  pub index : ℕ

-- The variables `delta`, `nibble` and `vpdiff` between the tests of `encode_nibble`.
pub record Quantizer : Type 0 where
  pub delta : ℕ
  pub nibble : ℕ
  pub vpdiff : ℕ

-- One test: the bit `bit` and the part `part` of the step.
pub quantize : ℕ → ℕ → Quantizer → Quantizer
quantize bit part q =
    if leb part q.delta
    then record { delta = q.delta - part; nibble = bit_or q.nibble bit; vpdiff = q.vpdiff + part }
    else q

-- The end of both functions: the predictor moves by `diff`, the index by the table.
pub advance : Predictor → ℕ → ℕ → Predictor
advance p nibble diff = record {
  pred =
      clamp_sample (if not (bit_and nibble 8 == 0) then p.pred -ℤ pos diff else p.pred +ℤ pos diff);
  index = clamp_index (pos p.index +ℤ get_or index_table nibble (pos 0));
}

-- The last test leaves `delta` as it is, which nothing reads.
pub quantized : Predictor → ℤ → Quantizer
quantized p sample =
    let step = get_or step_table p.index 0 in
    let delta = sample -ℤ p.pred in
    let sign : Quantizer =
      if ltb_ℤ delta (pos 0)
      then record { delta = neg_part delta; nibble = 8; vpdiff = step / 8 }
      else record { delta = pos_part delta; nibble = 0; vpdiff = step / 8 } in
    quantize 1 (step / 4) (quantize 2 (step / 2) (quantize 4 step sign))

pub encode_nibble : ℤ → Predictor → ℕ × Predictor
encode_nibble sample p = let q = quantized p sample in (q.nibble, advance p q.nibble q.vpdiff)

-- `if n & bit != 0 { diff += part }`.
pub add_part : ℕ → ℕ → ℕ → ℕ → ℕ
add_part n bit part diff = if not (bit_and n bit == 0) then diff + part else diff

-- The sample of the result is `pred`.
pub decode_nibble : ℕ → Predictor → Predictor
decode_nibble nibble p =
    let step = get_or step_table p.index 0 in
    let n = bit_and nibble 15 in
    advance p n (add_part n 4 step (add_part n 2 (step / 2) (add_part n 1 (step / 4) (step / 8))))
