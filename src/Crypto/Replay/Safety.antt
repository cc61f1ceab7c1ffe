-- ===== src/Crypto/Replay/Safety.antt =====
-- No number is accepted twice, and a number above all that were offered is accepted.
use remote_au.Common.{
  ℕ, ◌<◌, ◌≡◌, refl, ◌∙◌, inl, inr, Bool, true, false, List, [], ◌∷◌, Bool-cases, arith, clamp,
}
use remote_au.Crypto.Replay.{new, commit, commit_all}
use remote_au.Crypto.Replay.Reference.{
  contains, highest, accepts, answers, remember_all, contains-le-highest, remember_all_highest,
}
use remote_au.Crypto.Replay.Refine.{commit_all-answers, commit_after}

-- The numbers of a run that were answered with `true`.
abbrev pub accepted : List ℕ → List Bool → List ℕ
accepted [] bs = []
accepted (s ∷ ss) [] = []
accepted (s ∷ ss) (true ∷ bs) = s ∷ accepted ss bs
accepted (s ∷ ss) (false ∷ bs) = accepted ss bs

abbrev pub Distinct : List ℕ → Type 0
Distinct [] = Unit {0}
Distinct (x ∷ xs) = (contains x xs ≡ false) × Distinct xs

-- What is remembered is not accepted again.
not_again :
    (w s : ℕ) (taken ss : List ℕ)
    → contains s taken ≡ true
    → contains s (accepted ss (answers w taken ss)) ≡ false
not_again w s taken [] h = refl
not_again w s taken (x ∷ xs) h = elim (Bool-cases (accepts w taken x)) [
  | inl yes_x ↦ rw yes_x (ground (arith, not_again w s (x ∷ taken) xs))
  | inr no_x ↦ rw no_x (not_again w s taken xs h)
]

answers-Distinct : (w : ℕ) (taken ss : List ℕ) → Distinct (accepted ss (answers w taken ss))
answers-Distinct w taken [] = tt
answers-Distinct w taken (x ∷ xs) = elim (Bool-cases (accepts w taken x)) [
  | inl yes_x ↦
      rw yes_x (not_again w x (x ∷ taken) xs (ground arith), answers-Distinct w (x ∷ taken) xs)
  | inr no_x ↦ rw no_x (answers-Distinct w taken xs)
]

-- Whatever the run of packets, no sequence number is accepted twice.
pub commit_all-Distinct :
    (wanted : ℕ) (ss : List ℕ) → Distinct (accepted ss (commit_all (new wanted) ss).1)
commit_all-Distinct wanted ss = rw (commit_all-answers wanted ss) (answers-Distinct _ [] ss)

-- A nonzero number above every number offered before is accepted: traffic in order never stalls.
pub commit-above :
    (wanted : ℕ) (ss : List ℕ) (s : ℕ)
    → highest ss < s
    → (commit (commit_all (new wanted) ss).0 s).1 ≡ true
commit-above wanted ss s h =
    commit_after wanted ss s
    ∙ ground (
      arith,
      remember_all_highest (clamp wanted 64 4096) [] ss,
      contains-le-highest s (remember_all (clamp wanted 64 4096) [] ss),
    )
