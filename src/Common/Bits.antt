-- ===== src/Common/Bits.antt =====
-- Single bits of a word: `w & (1 << i) != 0` and `w |= 1 << i`, for every width.
mod Step
use Step.{bit_or_halves, bit_and_halves, zero_right}
use Prim.Native.Nat.{
  ℕ, zero, suc, ◌+◌, ◌-◌, ◌*◌, ◌/◌, ◌%◌, ◌^◌, ◌≤◌, ◌<◌, bit_and, bit_or, bit_or-bitwise, min, max,
}
use mathlib.Core.Path.{◌≡◌, refl, sym, ap, ◌∙◌}
use mathlib.Core.Logic.{◌≢◌}
use mathlib.Core.Bool.{Bool, true, false, not, ◌||◌}
use native.Mathlib.Omega.{arith}
use native.Mathlib.Nat.{pow-suc, one-le-pow}
use remote_au.Common.Tests.{◌==◌, ltb, if◌then◌else◌}

-- `w & (1 << i) != 0`.
unfoldable pub has_bit : ℕ → ℕ → Bool
has_bit w i = not (bit_and w (2 ^ i) == 0)

-- `w | (1 << i)`.
unfoldable pub with_bit : ℕ → ℕ → ℕ
with_bit w i = bit_or w (2 ^ i)

-- The lowest bit, and the step from a word to its half.
pub has_bit-zero : (w : ℕ) → has_bit w 0 ≡ (w % 2 == 1)
unfolding has_bit
has_bit-zero w = ground (arith, bit_and_halves w 1, zero_right (w / 2) (w / 2) (omega arith))

pub has_bit-suc : (w i : ℕ) → has_bit w (suc i) ≡ has_bit (w / 2) i
unfolding has_bit
has_bit-suc w i = ground (arith, half, bit_and_halves w (2 ^ suc i), pow-suc 2 i)
  where
    half : 2 ^ suc i / 2 ≡ 2 ^ i
    half = omega (arith, pow-suc 2 i)

with_bit-zero : (w : ℕ) → (with_bit w 0 / 2 ≡ w / 2) × (with_bit w 0 % 2 ≡ 1)
unfolding with_bit
with_bit-zero w = omega (arith, bit_or_halves w 1, zero_right (w / 2) (w / 2) (omega arith))

with_bit-suc :
    (w i : ℕ) → (with_bit w (suc i) / 2 ≡ with_bit (w / 2) i) × (with_bit w (suc i) % 2 ≡ w % 2)
unfolding with_bit
with_bit-suc w i =
    let half : 2 ^ suc i / 2 ≡ 2 ^ i = omega (arith, pow-suc 2 i) in
    let even : 2 ^ suc i % 2 ≡ 0 = omega (arith, pow-suc 2 i) in
    let step : with_bit w (suc i) ≡ with_bit (w / 2) i * 2 + w % 2 =
      bit_or_halves w (2 ^ suc i)
      ∙ omega arith
      ∙ ap (λ (m : ℕ). bit_or (w / 2) m * 2 + max (w % 2) (2 ^ suc i % 2)) half
      ∙ omega (arith, even) in
    (omega (arith, step), omega (arith, step))

-- Setting a bit sets that one and changes no other.
pub has_bit-with_bit : (w i j : ℕ) → has_bit (with_bit w i) j ≡ (i == j || has_bit w j)
has_bit-with_bit w zero zero = ground (arith, has_bit-zero (with_bit w 0), with_bit-zero w)
has_bit-with_bit w zero (suc j) =
    has_bit-suc (with_bit w 0) j
    ∙ ap (λ (v : ℕ). has_bit v j) (with_bit-zero w).0
    ∙ ground (arith, has_bit-suc w j)
has_bit-with_bit w (suc i) zero =
    ground (arith, has_bit-zero (with_bit w (suc i)), has_bit-zero w, with_bit-suc w i)
has_bit-with_bit w (suc i) (suc j) =
    has_bit-suc (with_bit w (suc i)) j
    ∙ ap (λ (v : ℕ). has_bit v j) (with_bit-suc w i).0
    ∙ has_bit-with_bit (w / 2) i j
    ∙ ground (arith, has_bit-suc w j)

-- A clear word has no bit.
pub has_bit_clear : (i : ℕ) → has_bit 0 i ≡ false
has_bit_clear zero = has_bit-zero 0
has_bit_clear (suc i) = has_bit-suc 0 i ∙ has_bit_clear i

-- Nibbles: the low four bits, and two of them in one byte.
pub bit_and-15 : (n : ℕ) → bit_and n 15 ≡ n % 16
bit_and-15 n = omega (
  arith,
  bit_and_halves n 15,
  bit_and_halves (n / 2) 7,
  bit_and_halves (n / 2 / 2) 3,
  bit_and_halves (n / 2 / 2 / 2) 1,
  zero_right (n / 2 / 2 / 2 / 2) (n / 2 / 2 / 2 / 2) (omega arith),
)

or_of_zero : (a b : ℕ) → a ≡ 0 → bit_or a b ≡ b
or_of_zero zero b h = simp bit_or-bitwise refl
or_of_zero (suc a) b h = absurd (omega (arith, h))

pub bit_or_nibbles : (lo hi : ℕ) → lo < 16 → hi < 16 → bit_or lo (hi * 16 % 256) ≡ lo + hi * 16
bit_or_nibbles lo hi hl hh =
    let b : ℕ = hi * 16 % 256 in
    omega (
      arith,
      bit_or_halves lo b,
      bit_or_halves (lo / 2) (b / 2),
      bit_or_halves (lo / 2 / 2) (b / 2 / 2),
      bit_or_halves (lo / 2 / 2 / 2) (b / 2 / 2 / 2),
      or_of_zero (lo / 2 / 2 / 2 / 2) (b / 2 / 2 / 2 / 2) (omega arith),
    )
