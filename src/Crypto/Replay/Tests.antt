-- ===== src/Crypto/Replay/Tests.antt =====
-- Concrete runs of the window.
use remote_au.Common.{ℕ, ◌≡◌, refl, true, false, List, [], ◌∷◌, arith}
use remote_au.Crypto.Replay.{
  new, commit, commit_all, mark, clear, slide, slide_loop, bit_at, set_bit,
}
use remote_au.Crypto.Replay.Reference.{answers}
use remote_au.Crypto.Replay.Refine.{commit_all-answers}
use remote_au.Crypto.Replay.Safety.{Distinct, accepted, commit_all-Distinct, commit-above}
use remote_au.Common.Bits.{has_bit, with_bit}

abbrev offered : List ℕ
offered = 5 ∷ 5 ∷ 3 ∷ 80 ∷ 16 ∷ 17 ∷ 0 ∷ 80 ∷ []

-- 80 moves the window of 64 to 17 and above.
runs :
    (commit_all (new 0) offered).1 ≡ true ∷ false ∷ true ∷ true ∷ false ∷ true ∷ false ∷ false ∷ []
unfolding new commit_all commit mark clear slide slide_loop bit_at set_bit has_bit with_bit
runs = refl

commit_all-answers_example : (commit_all (new 0) offered).1 ≡ answers 64 [] offered
commit_all-answers_example = commit_all-answers 0 offered

commit_all-Distinct_example : Distinct (accepted offered (commit_all (new 0) offered).1)
commit_all-Distinct_example = commit_all-Distinct 0 offered

commit-above_example : (commit (commit_all (new 0) offered).0 81).1 ≡ true
commit-above_example = commit-above 0 offered 81 (omega arith)
