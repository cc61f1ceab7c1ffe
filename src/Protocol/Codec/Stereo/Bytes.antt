-- ===== src/Protocol/Codec/Stereo/Bytes.antt =====
-- Nibbles in a byte, samples in bytes, and samples written in order.
use remote_au.Common.{
  ℕ, suc, ◌+◌, ◌*◌, ◌/◌, ◌<◌, ◌≡◌, ap, sym, ◌∙◌, List, [], ◌∷◌, ◌++◌, set, length, bit_and, arith,
}
use remote_au.Common.Bits.{bit_and-15, bit_or_nibbles}
use mathlib.Core.List.{append_assoc}
use remote_au.Common.Int.{ℤ}
use remote_au.Protocol.Codec.Nibble.{low_byte, high_byte}
use remote_au.Protocol.Codec.Stereo.{write_i16, pack}

pub low-pack : (lo hi : ℕ) → lo < 16 → hi < 16 → bit_and (pack lo hi) 15 ≡ lo
low-pack lo hi hl hh = omega (arith, bit_and-15 (pack lo hi), bit_or_nibbles lo hi hl hh)

pub high-pack : (lo hi : ℕ) → lo < 16 → hi < 16 → pack lo hi / 16 ≡ hi
high-pack lo hi hl hh = omega (arith, bit_or_nibbles lo hi hl hh)

module _ {ℓ} {A : Type ℓ} where
  pub set-append :
      (xs ys : List A) (i : ℕ) (v : A) → set (xs ++ ys) (length xs + i) v ≡ xs ++ set ys i v
  set-append [] ys i v = ap (λ (j : ℕ). set ys j v) (omega arith)
  set-append (x ∷ xs) ys i v =
      ap (λ j. set (x ∷ (xs ++ ys)) j v) shift ∙ ap (λ l. x ∷ l) (set-append xs ys i v)
    where
      shift : suc (length xs) + i ≡ suc (length xs + i)
      shift = omega arith

  set_append_at :
      (xs ys : List A) (i j : ℕ) (v : A) → j ≡ length xs + i → set (xs ++ ys) j v ≡ xs ++ set ys i v
  set_append_at xs ys i j v h = rw h (set-append xs ys i v)

-- Two samples written at frame `frame` go behind the `4 * frame` bytes written before.
pub write_i16_frame :
    (done rest : List ℕ) (a b c d frame : ℕ) (l r : ℤ)
    → length done ≡ 4 * frame
    → write_i16 (write_i16 (done ++ (a ∷ b ∷ c ∷ d ∷ rest)) frame 0 l) frame 1 r
      ≡ (done ++ (low_byte l ∷ high_byte l ∷ low_byte r ∷ high_byte r ∷ [])) ++ rest
unfolding write_i16
write_i16_frame done rest a b c d frame l r h =
    ap
      (λ p.
        set (set (set p ((frame * 2 + 0) * 2 + 1) lh) ((frame * 2 + 1) * 2) rl)
          ((frame * 2 + 1) * 2 + 1) rh)
      (set_append_at done (a ∷ b ∷ c ∷ d ∷ rest) 0 ((frame * 2 + 0) * 2) ll (omega (arith, h)))
    ∙ ap (λ p. set (set p ((frame * 2 + 1) * 2) rl) ((frame * 2 + 1) * 2 + 1) rh)
        (set_append_at done (ll ∷ b ∷ c ∷ d ∷ rest) 1 ((frame * 2 + 0) * 2 + 1) lh
          (omega (arith, h)))
    ∙ ap (λ p. set p ((frame * 2 + 1) * 2 + 1) rh)
        (set_append_at done (ll ∷ lh ∷ c ∷ d ∷ rest) 2 ((frame * 2 + 1) * 2) rl (omega (arith, h)))
    ∙ set_append_at done (ll ∷ lh ∷ rl ∷ d ∷ rest) 3 ((frame * 2 + 1) * 2 + 1) rh (omega (arith, h))
    ∙ sym (append_assoc done (ll ∷ lh ∷ rl ∷ rh ∷ []) rest)
  where
    ll : ℕ
    ll = low_byte l

    lh : ℕ
    lh = high_byte l

    rl : ℕ
    rl = low_byte r

    rh : ℕ
    rh = high_byte r
