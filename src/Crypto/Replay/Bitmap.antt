-- ===== src/Crypto/Replay/Bitmap.antt =====
-- The bitmap by index: what `mark`, `clear` and the loop of `slide` do to single bits.
use remote_au.Common.{
  ℕ, zero, suc, ◌+◌, ◌-◌, ◌*◌, ◌/◌, ◌%◌, ◌≤◌, ◌<◌, ◌≡◌, refl, ap, ◌∙◌, inl, inr, false, ◌||◌, ◌&&◌,
  List, get_or, replicate, length, leb, ltb, ◌==◌, if◌then◌else◌, Bool-cases, arith, length-set,
  get_or-set_self, get_or-set_ne,
}
use remote_au.Common.Bits.{has_bit, with_bit, has_bit-with_bit, has_bit_clear}
use remote_au.Crypto.Replay.{bit_at, set_bit, slide_loop}

pub bit_at-set_bit :
    (bits : List ℕ) (i j : ℕ)
    → i < 64 * length bits
    → bit_at (set_bit bits i) j ≡ (i == j || bit_at bits j)
unfolding bit_at set_bit
bit_at-set_bit bits i j h = elim (Bool-cases (i / 64 == j / 64)) [
  | inl same ↦ ground (
    arith,
    get_or-set_self bits (i / 64) (with_bit (get_or bits (i / 64) 0) (i % 64)) 0 (omega arith),
    has_bit-with_bit (get_or bits (i / 64) 0) (i % 64) (j % 64),
  )
  | inr other ↦
      ground
        (arith, get_or-set_ne bits (i / 64) (j / 64) (with_bit (get_or bits (i / 64) 0) (i % 64)) 0)
]

get_or-replicate : (n i : ℕ) → get_or {A = ℕ} (replicate n 0) i 0 ≡ 0
get_or-replicate zero i = refl
get_or-replicate (suc n) zero = refl
get_or-replicate (suc n) (suc i) = get_or-replicate n i

pub bit_at-replicate : (n i : ℕ) → bit_at (replicate n 0) i ≡ false
unfolding bit_at
bit_at-replicate n i =
    ap (λ (w : ℕ). has_bit w (i % 64)) (get_or-replicate n (i / 64)) ∙ has_bit_clear (i % 64)

length-slide_round :
    (old shift : ℕ) (bits next : List ℕ)
    → length (if bit_at bits old then set_bit next (old - shift) else next) ≡ length next
unfolding set_bit
length-slide_round old shift bits next = elim (Bool-cases (bit_at bits old)) [
  | inl hit ↦ rw hit (length-set next _ _)
  | inr miss ↦ rw miss
]

pub length-slide_loop :
    (left old shift : ℕ) (bits next : List ℕ)
    → length (slide_loop left old shift bits next) ≡ length next
unfolding slide_loop
length-slide_loop zero old shift bits next = refl
length-slide_loop (suc left) old shift bits next =
    length-slide_loop left (old + 1) shift bits _ ∙ length-slide_round old shift bits next

-- One round of the loop, seen at bit `j`.
slide_round :
    (old shift j : ℕ) (bits next : List ℕ)
    → shift ≤ old
    → old - shift < 64 * length next
    → bit_at (if bit_at bits old then set_bit next (old - shift) else next) j
      ≡ (bit_at next j || (old == j + shift && bit_at bits (j + shift)))
slide_round old shift j bits next h fits = elim (Bool-cases (bit_at bits old)) [
  | inl hit ↦ rw hit (ground (arith, bit_at-set_bit next (old - shift) j))
  | inr miss ↦ rw miss (ground arith)
]

-- The loop moves the bits `old … old + left - 1` down by `shift`, on top of what `next` has.
pub bit_at-slide_loop :
    (left old shift j : ℕ) (bits next : List ℕ)
    → shift ≤ old
    → old + left - shift ≤ 64 * length next
    → bit_at (slide_loop left old shift bits next) j ≡ (
        bit_at next j
        || (leb old (j + shift) && (ltb (j + shift) (old + left) && bit_at bits (j + shift))))
unfolding slide_loop
bit_at-slide_loop zero old shift j bits next h fits = ground arith
bit_at-slide_loop (suc left) old shift j bits next h fits =
    let after = if bit_at bits old then set_bit next (old - shift) else next in
    let size : length after ≡ length next = length-slide_round old shift bits next in
    bit_at-slide_loop left (old + 1) shift j bits after (omega arith) (omega (arith, size))
    ∙ ground (arith, slide_round old shift j bits next)
