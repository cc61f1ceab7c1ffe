-- ===== src/Protocol/Codec/Nibble/Tracking.antt =====
-- The predictor of src/protocol/codec.rs in the encoder and in the decoder.
use remote_au.Common.{
  ℕ, ◌+◌, ◌/◌, ◌<◌, ◌≡◌, ◌∙◌, refl, ap, inl, inr, Bool, true, false, get_or, bit_and, bit_or, leb,
  if◌then◌else◌, arith, Bool-cases,
}
use remote_au.Common.Int.{ℤ, pos, ◌-ℤ◌, pos_part, neg_part, ltb_ℤ}
use remote_au.Protocol.Codec.Nibble.{
  step_table, Predictor, Quantizer, quantize, quantized, encode_nibble, add_part, decode_nibble,
}

-- What the tests of the encoder wrote, as bits, and the difference they add up to.
abbrev bit : Bool → ℕ → ℕ
bit b n = if b then n else 0

record Bits (step : ℕ) (q : Quantizer) : Type 0 where
  sign : Bool
  b4 : Bool
  b2 : Bool
  b1 : Bool
  nibble : q.nibble ≡ bit sign 8 + bit b4 4 + bit b2 2 + bit b1 1
  vpdiff : q.vpdiff ≡ step / 8 + bit b4 step + bit b2 (step / 2) + bit b1 (step / 4)

quantize_lem :
    (b part : ℕ) (q : Quantizer)
    → let t = leb part q.delta in
      ((quantize b part q).nibble ≡ (if t then bit_or q.nibble b else q.nibble))
      × ((quantize b part q).vpdiff ≡ q.vpdiff + bit t part)
unfolding quantize
quantize_lem b part q = elim (Bool-cases (leb part q.delta)) [
  | inl e ↦ rw e (refl, refl)
  | inr e ↦ rw e (refl, omega arith)
]

-- The low bits of a nibble, put in one after the other.
ors : (s b4 b2 b1 : Bool) → ℕ
ors s b4 b2 b1 =
    let x = bit s 8 in
    let y = if b4 then bit_or x 4 else x in
    let z = if b2 then bit_or y 2 else y in if b1 then bit_or z 1 else z

ors_lem : (s b4 b2 b1 : Bool) → ors s b4 b2 b1 ≡ bit s 8 + bit b4 4 + bit b2 2 + bit b1 1
unfolding ors
ors_lem s b4 b2 b1 = ground arith

quantized-Bits :
    (p : Predictor) (sample : ℤ) → Bits (get_or step_table p.index 0) (quantized p sample)
unfolding quantized
quantized-Bits p sample = elim (Bool-cases (ltb_ℤ (sample -ℤ p.pred) (pos 0))) [
  | inl e ↦ rw e (three true (neg_part (sample -ℤ p.pred)))
  | inr e ↦ rw e (three false (pos_part (sample -ℤ p.pred)))
]
  where
    step : ℕ
    step = get_or step_table p.index 0

    three :
        (s : Bool) (d : ℕ)
        → Bits step (
            quantize 1 (step / 4) (
              quantize 2
                (step / 2)
                (quantize 4 step (record { delta = d; nibble = bit s 8; vpdiff = step / 8 }))))
    three s d =
        let q0 : Quantizer = record { delta = d; nibble = bit s 8; vpdiff = step / 8 } in
        let q1 = quantize 4 step q0 in
        let q2 = quantize 2 (step / 2) q1 in
        let r1 = quantize_lem 4 step q0 in
        let r2 = quantize_lem 2 (step / 2) q1 in
        let r3 = quantize_lem 1 (step / 4) q2 in
        record {
          sign = s;
          b4 = leb step d;
          b2 = leb (step / 2) q1.delta;
          b1 = leb (step / 4) q2.delta;
          nibble =
              r3.0
              ∙ ap (λ z. if leb (step / 4) q2.delta then bit_or z 1 else z)
                  (r2.0 ∙ ap (λ y. if leb (step / 2) q1.delta then bit_or y 2 else y) r1.0)
              ∙ unfold ors in
                (ors_lem s (leb step d) (leb (step / 2) q1.delta) (leb (step / 4) q2.delta));
          vpdiff = omega (arith, r1.1, r2.1, r3.1);
        }

-- The decoder's tests read the same bits.
decode_bits :
    (s b4 b2 b1 : Bool) (step : ℕ)
    → let n = bit s 8 + bit b4 4 + bit b2 2 + bit b1 1 in
      add_part n 4 step (add_part n 2 (step / 2) (add_part n 1 (step / 4) (step / 8)))
      ≡ step / 8 + bit b4 step + bit b2 (step / 2) + bit b1 (step / 4)
unfolding add_part
decode_bits s b4 b2 b1 step = ground arith

nibble_bits :
    (s b4 b2 b1 : Bool)
    → let n = bit s 8 + bit b4 4 + bit b2 2 + bit b1 1 in (bit_and n 15 ≡ n) × (n < 16)
nibble_bits s b4 b2 b1 = ground arith

-- After any sample, the nibble that the encoder writes is below 16, and it takes a decoder in the encoder's state to the encoder's next state.
pub decode_nibble-encode_nibble :
    (sample : ℤ) (p : Predictor)
    → ((encode_nibble sample p).0 < 16)
      × (decode_nibble (encode_nibble sample p).0 p ≡ (encode_nibble sample p).1)
unfolding encode_nibble decode_nibble
decode_nibble-encode_nibble sample p =
    let q = quantized-Bits p sample in
    let (e, l) = nibble_bits q.sign q.b4 q.b2 q.b1 in
    rw (q.nibble, q.vpdiff)
      (l, rw (e, decode_bits q.sign q.b4 q.b2 q.b1 (get_or step_table p.index 0)) refl)
