-- ===== src/Crypto/Replay/Reference.antt =====
-- A reference for the window: it remembers every number it took, in full.
use remote_au.Common.{
  ℕ, ◌+◌, ◌≤◌, ◌≡◌, Bool, true, false, not, ◌||◌, ◌&&◌, List, [], ◌∷◌, ltb, ◌==◌, if◌then◌else◌,
  arith, max,
}

abbrev pub contains : ℕ → List ℕ → Bool
contains s [] = false
contains s (x ∷ xs) = s == x || contains s xs

abbrev pub highest : List ℕ → ℕ
highest [] = 0
highest (x ∷ xs) = max x (highest xs)

-- The reference: zero, a number taken before, and one `window` or more below the highest taken are
-- refused, and all else is taken.
abbrev pub accepts : ℕ → List ℕ → ℕ → Bool
accepts window taken seq =
    not (seq == 0) && (not (contains seq taken) && ltb (highest taken) (seq + window))

abbrev pub remember : ℕ → List ℕ → ℕ → List ℕ
remember window taken seq = if accepts window taken seq then seq ∷ taken else taken

abbrev pub answers : ℕ → List ℕ → List ℕ → List Bool
answers window taken [] = []
answers window taken (s ∷ ss) = accepts window taken s ∷ answers window (remember window taken s) ss

pub contains-le-highest : (s : ℕ) (xs : List ℕ) → contains s xs ≡ true → s ≤ highest xs
contains-le-highest s [] h = cc
contains-le-highest s (x ∷ xs) h = ground (arith, contains-le-highest s xs)

-- What the reference remembers after a run.
abbrev pub remember_all : ℕ → List ℕ → List ℕ → List ℕ
remember_all window taken [] = taken
remember_all window taken (s ∷ ss) = remember_all window (remember window taken s) ss

remember_all_bound :
    (w : ℕ) (taken ss : List ℕ) (top : ℕ)
    → highest taken ≤ top
    → highest ss ≤ top
    → highest (remember_all w taken ss) ≤ top
remember_all_bound w taken [] top h k = h
remember_all_bound w taken (s ∷ ss) top h k =
    remember_all_bound w (remember w taken s) ss top (ground arith) (omega arith)

pub remember_all_highest :
    (w : ℕ) (taken ss : List ℕ)
    → highest (remember_all w taken ss) ≤ max (highest taken) (highest ss)
remember_all_highest w taken ss = remember_all_bound w taken ss _ (omega arith) (omega arith)
