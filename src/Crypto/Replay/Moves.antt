-- ===== src/Crypto/Replay/Moves.antt =====
-- `mark` and `slide` on a window whose bitmap holds the numbers taken.
use remote_au.Common.{
  ℕ, ◌+◌, ◌-◌, ◌*◌, ◌≤◌, ◌<◌, ◌≡◌, refl, ap, ◌∙◌, inl, inr, Bool, true, false, not, List, ◌∷◌,
  replicate, length, leb, if◌then◌else◌, Bool-cases, arith, length-set, length-replicate,
}
use remote_au.Crypto.Replay.{ReplayWindow, bit_at, set_bit, mark, clear, slide}
use remote_au.Crypto.Replay.Bitmap.{
  bit_at-set_bit, bit_at-replicate, length-slide_loop, bit_at-slide_loop,
}
use remote_au.Crypto.Replay.Reference.{contains, highest, contains-le-highest}

-- The bitmap holds the numbers taken from `base` on.
abbrev pub Holds : ReplayWindow → List ℕ → Type 0
Holds r taken = (i : ℕ) → i < r.window → bit_at r.bits i ≡ contains (r.base + i) taken

-- What `mark` does to a window that holds `taken`.
pub record Marks (r : ReplayWindow) (taken : List ℕ) (seq : ℕ) (out : ReplayWindow × Bool)
    : Type 0 where
  pub took : out.1 ≡ not (contains seq taken)
  pub window : out.0.window ≡ r.window
  pub base : out.0.base ≡ r.base
  pub size : length out.0.bits ≡ length r.bits
  pub holds : Holds out.0 (if contains seq taken then taken else seq ∷ taken)

mark-eq :
    (r : ReplayWindow) (taken : List ℕ) (seq : ℕ)
    → Holds r taken
    → r.base ≤ seq
    → seq - r.base < r.window
    → mark r seq ≡ (
        if contains seq taken
        then (r, false)
        else (record r { bits = set_bit r.bits (seq - r.base) }, true))
unfolding mark
mark-eq r taken seq holds h1 h2 =
    let back : r.base + (seq - r.base) ≡ seq = omega arith in
    let hit : bit_at r.bits (seq - r.base) ≡ contains seq taken =
      holds (seq - r.base) h2 ∙ ap (λ (s : ℕ). contains s taken) back in
    rw (le→leb-lt h2, hit)
  where
    le→leb-lt : seq - r.base < r.window → leb r.window (seq - r.base) ≡ false
    le→leb-lt h = ground arith

pub mark-Marks :
    (r : ReplayWindow) (taken : List ℕ) (seq : ℕ)
    → r.window ≤ 64 * length r.bits
    → Holds r taken
    → r.base ≤ seq
    → seq - r.base < r.window
    → Marks r taken seq (mark r seq)
mark-Marks r taken seq room holds h1 h2 =
    rw (mark-eq r taken seq holds h1 h2) (elim (Bool-cases (contains seq taken)) [
      | inl old ↦
          rw old (record {
            took = rw old;
            window = refl;
            base = refl;
            size = refl;
            holds = rw old holds;
          })
      | inr fresh ↦ rw fresh (record {
        took = rw fresh;
        window = refl;
        base = refl;
        size = unfold set_bit in length-set r.bits _ _;
        holds = rw fresh (λ i hi.
            bit_at-set_bit r.bits (seq - r.base) i (omega arith) ∙ ground (arith, holds i hi));
      })
    ])

pub slide-Holds :
    (r : ReplayWindow) (taken : List ℕ) (new_base : ℕ)
    → r.window ≤ 64 * length r.bits
    → Holds r taken
    → r.base < new_base
    → highest taken < r.base + r.window
    → let q = slide r new_base in
      (q.window ≡ r.window) × (q.base ≡ new_base) × (length q.bits ≡ length r.bits) × Holds q taken
unfolding slide clear
slide-Holds r taken new_base room holds h top =
    elim (Bool-cases (leb r.window (new_base - r.base))) [
      | inl far ↦
          rw (le→leb-lt h, far)
            (
              refl,
              refl,
              length-replicate (length r.bits) empty,
              λ i hi.
                  bit_at-replicate _ i ∙ ground (arith, contains-le-highest (new_base + i) taken),
            )
      | inr near ↦
          rw (le→leb-lt h, near)
            (
              refl,
              refl,
              length-slide_loop _ _ _ _ _ ∙ length-replicate (length r.bits) empty,
              λ i hi.
                  bit_at-slide_loop (r.window - shift) shift shift i r.bits
                    (replicate (length r.bits) 0) (omega arith)
                    (omega (arith, length-replicate (length r.bits) empty))
                  ∙ ground (
                    arith,
                    bit_at-replicate (length r.bits) i,
                    contains-le-highest (new_base + i) taken,
                    holds (i + shift),
                    cell i,
                  ),
            )
    ]
  where
    empty : ℕ
    empty = 0

    shift : ℕ
    shift = new_base - r.base

    le→leb-lt : r.base < new_base → leb new_base r.base ≡ false
    le→leb-lt h = ground arith

    cell : (i : ℕ) → contains (r.base + (i + shift)) taken ≡ contains (new_base + i) taken
    cell i = ap (λ (s : ℕ). contains s taken) (omega arith)
