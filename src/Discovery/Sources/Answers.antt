-- ===== src/Discovery/Sources/Answers.antt =====
-- Lists of answers, and when one answer covers another.
use remote_au.Common.{
  ℕ, ◌≤◌, ◌≡◌, ◌≢◌, ◌⊎◌, refl, ◌∙◌, inr, Bool, List, [], ◌∷◌, bytes_eq, All, arith,
}
use remote_au.Discovery.Sources.{source_rank, Answer}

abbrev pub Among : Answer → List Answer → Type 0
Among x [] = ⊥
Among x (y ∷ ys) = (x ≡ y) ⊎ Among x ys

abbrev pub same : Answer → Answer → Bool
same x y = bytes_eq x.0.instance_id y.0.instance_id

abbrev pub Differ : Answer → Answer → Type 0
Differ x y = x.0.instance_id ≢ y.0.instance_id

abbrev pub Distinct : List Answer → Type 0
Distinct [] = Unit
Distinct (x ∷ xs) = All (Differ x) xs × Distinct xs

abbrev pub rank : Answer → ℕ
rank x = source_rank x.1

abbrev pub Sorted : List Answer → Type 0
Sorted [] = Unit
Sorted (x ∷ xs) = All (λ y. rank x ≤ rank y) xs × Sorted xs

-- An answer of the same instance whose source is at least as direct.
pub record Covers (x : Answer) (out : List Answer) : Type 0 where
  pub answer : Answer
  pub kept : Among answer out
  pub instance : x.0.instance_id ≡ answer.0.instance_id
  pub direct : rank answer ≤ rank x

pub later : (x y : Answer) (out : List Answer) → Covers x out → Covers x (y ∷ out)
later x y out c = record {
  answer = c.answer;
  kept = inr c.kept;
  instance = c.instance;
  direct = c.direct;
}

pub itself : (x : Answer) (out : List Answer) → Among x out → Covers x out
itself x out h = record { answer = x; kept = h; instance = refl; direct = omega arith }

pub covers_more :
    {x : Answer} {best out : List Answer}
    → ((y : Answer) → Among y best → Covers y out)
    → Covers x best
    → Covers x out
covers_more f c =
    let d = f c.answer c.kept in
    record {
      answer = d.answer;
      kept = d.kept;
      instance = c.instance ∙ d.instance;
      direct = omega (arith, c.direct, d.direct);
    }
