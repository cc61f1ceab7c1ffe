-- ===== src/Crypto/Replay.antt =====
-- src/crypto/replay.rs: the anti-replay bitmap over 64-bit words. A sequence number is a u64, and
-- `usize` has 64 bits.
pub mod Reference
pub mod Bitmap
pub mod Moves
pub mod Refine
pub mod Safety
pub mod Taken
pub mod Tests
use remote_au.Common.{
  ℕ, zero, suc, ◌+◌, ◌-◌, ◌/◌, ◌%◌, ◌≤◌, ◌<◌, Bool, true, false, List, [], ◌∷◌, get_or, set,
  replicate, length, ltb, leb, ◌==◌, if◌then◌else◌, max, clamp,
}
use remote_au.Common.Bits.{has_bit, with_bit}

pub record ReplayWindow : Type 0 where
  pub window : ℕ
  pub base : ℕ
  pub bits : List ℕ

-- `div_ceil`.
abbrev words_for : ℕ → ℕ
words_for window = (window + 63) / 64

unfoldable pub new : ℕ → ReplayWindow
new wanted =
    let window = clamp wanted 64 4096 in
    record { window = window; base = 0; bits = replicate (words_for window) 0 }

-- `self.bits[idx / 64] & (1 << (idx % 64)) != 0`.
unfoldable pub bit_at : List ℕ → ℕ → Bool
bit_at bits idx = has_bit (get_or bits (idx / 64) 0) (idx % 64)

-- `self.bits[idx / 64] |= 1 << (idx % 64)`.
unfoldable pub set_bit : List ℕ → ℕ → List ℕ
set_bit bits idx = set bits (idx / 64) (with_bit (get_or bits (idx / 64) 0) (idx % 64))

-- `commit` calls it at `base ≤ seq` only, so the subtraction does not wrap.
unfoldable pub mark : ReplayWindow → ℕ → ReplayWindow × Bool
mark r seq =
    let idx = seq - r.base in
    if leb r.window idx
    then (r, false)
    else if bit_at r.bits idx
    then (r, false)
    else (record r { bits = set_bit r.bits idx }, true)

unfoldable pub clear : ReplayWindow → ReplayWindow
clear r = record r { bits = replicate (length r.bits) 0 }

-- The loop of `slide`, from `old` on with `left` rounds to go.
unfoldable pub slide_loop : ℕ → ℕ → ℕ → List ℕ → List ℕ → List ℕ
slide_loop zero old shift bits next = next
slide_loop (suc left) old shift bits next =
    slide_loop left (old + 1) shift bits
      (if bit_at bits old then set_bit next (old - shift) else next)

unfoldable pub slide : ReplayWindow → ℕ → ReplayWindow
slide r new_base =
    if leb new_base r.base
    then r
    else (let shift = new_base - r.base in
        if leb r.window shift then record (clear r) { base = new_base } else record r {
          bits = slide_loop (r.window - shift) shift shift r.bits (replicate (length r.bits) 0);
          base = new_base;
        })

-- `seq - self.window + 1` is reached at `base + window ≤ seq` only, and does not wrap.
unfoldable pub commit : ReplayWindow → ℕ → ReplayWindow × Bool
commit r seq =
    if seq == 0
    then (r, false)
    else if r.base == 0
    then mark (clear (record r { base = max (seq - (r.window - 1)) 1 })) seq
    else if ltb seq r.base
    then (r, false)
    else if leb r.window (seq - r.base)
    then mark (slide r (seq - r.window + 1)) seq
    else mark r seq

-- A run of calls, with the answer to each.
pub commit_all : ReplayWindow → List ℕ → ReplayWindow × List Bool
commit_all r [] = (r, [])
commit_all r (s ∷ ss) =
    let (q, took) = commit r s in let (q', rest) = commit_all q ss in (q', took ∷ rest)
