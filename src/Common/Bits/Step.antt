-- ===== src/Common/Bits/Step.antt =====
-- `&` and `|` by halves. Their native form recurses on a count of digits; a count that is at least the
-- first number makes no difference.
use remote_au.Common.Tests.{ltb, Bool-cases}
use Prim.Native.Nat.{
  ℕ, zero, suc, ◌+◌, ◌*◌, ◌/◌, ◌%◌, ◌≤◌, min, max, bit_and, bit_or, digits, bitwise,
  bit_and-bitwise, bit_or-bitwise,
}
use mathlib.Core.Path.{◌≡◌, refl, ap, ◌∙◌}
use mathlib.Core.Logic.{inl, inr}
use native.Mathlib.Omega.{arith}

module _ (last : ℕ → ℕ) (op : ℕ → ℕ → ℕ) where
  -- One unit of the count to spare.
  spare : (count a b : ℕ) → a ≤ count → digits last op (suc count) a b ≡ digits last op count a b
  spare zero zero b h = refl
  spare (suc count) zero b h = refl
  spare zero (suc a) b h = absurd (omega arith)
  spare (suc count) (suc a) b h =
      ap (λ d. d * 2 + op (suc a % 2) (b % 2)) (spare count (suc a / 2) (b / 2) (omega arith))

  enough : (count a b : ℕ) → a ≤ count → digits last op count a b ≡ bitwise last op a b
  enough zero zero b h = refl
  enough zero (suc a) b h = absurd (omega arith)
  enough (suc count) a b h = elim (Bool-cases (ltb count a)) [
    | inl top ↦ let same : suc count ≡ a = ground arith in ap (λ (n : ℕ). digits last op n a b) same
    | inr room ↦ spare count a b (ground arith) ∙ enough count a b (ground arith)
  ]

  -- The lowest digit, and the rest.
  halves :
      (a b : ℕ)
      → let x = suc a in
        bitwise last op x b ≡ bitwise last op (x / 2) (b / 2) * 2 + op (x % 2) (b % 2)
  halves a b = ap (λ d. d * 2 + op (suc a % 2) (b % 2)) (enough a (suc a / 2) (b / 2) (omega arith))

-- Both operations by halves.
pub bit_or_halves : (x y : ℕ) → bit_or x y ≡ max (x % 2) (y % 2) + 2 * bit_or (x / 2) (y / 2)
bit_or_halves zero y = simp bit_or-bitwise (omega arith)
bit_or_halves (suc x) y = simp bit_or-bitwise (omega (arith, halves (λ d. d) max x y))

pub bit_and_halves : (x y : ℕ) → bit_and x y ≡ min (x % 2) (y % 2) + 2 * bit_and (x / 2) (y / 2)
bit_and_halves zero y = simp bit_and-bitwise (omega arith)
bit_and_halves (suc x) y = simp bit_and-bitwise (omega (arith, halves (λ d. 0) min x y))

-- Zero on the right, up to a bound.
pub zero_right : (bound x : ℕ) → x ≤ bound → (bit_and x 0 ≡ 0) × (bit_or x 0 ≡ x)
zero_right bound zero h = (refl, refl)
zero_right zero (suc x) h = absurd (omega arith)
zero_right (suc bound) (suc x) h =
    let (none, same) = zero_right bound (suc x / 2) (omega arith) in
    (omega (arith, bit_and_halves (suc x) 0, none), omega (arith, bit_or_halves (suc x) 0, same))
