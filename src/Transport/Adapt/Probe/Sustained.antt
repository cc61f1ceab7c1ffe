-- ===== src/Transport/Adapt/Probe/Sustained.antt =====
-- The rate that a probe establishes (`highest_sustainable_step_timed` of src/transport/adapt.rs).
use mathlib.Core.Path.{subst}
use remote_au.Common.{
  ℕ, ◌≤◌, ◌<◌, ◌≡◌, refl, ap, sym, ◌∙◌, inl, inr, Option, none, some, List, [], ◌∷◌, max, ltb, ◌==◌,
  if◌then◌else◌, arith, Bool-cases, All,
}
use remote_au.Transport.Adapt.Probe.{
  TimedStep, better, highest_from, highest_sustainable_step_timed,
}
use remote_au.Transport.Adapt.Probe.Carried.{Carries, Counts, share, Carries→share, share→Carries}

abbrev peak : ℕ → List TimedStep → ℕ
peak best [] = best
peak best (s ∷ steps) = peak (max best (share s)) steps

abbrev rate_of : ℕ → Option ℕ
rate_of rate = if rate == 0 then none else some rate

better_lem : (best : ℕ) (s : TimedStep) → better (rate_of best) s ≡ rate_of (max best (share s))
unfolding better
better_lem best s = ground arith

highest_from_lem :
    (best : ℕ) (steps : List TimedStep)
    → highest_from (rate_of best) steps ≡ rate_of (peak best steps)
unfolding highest_from
highest_from_lem best [] = refl
highest_from_lem best (s ∷ steps) =
    ap (λ o. highest_from o steps) (better_lem best s) ∙ highest_from_lem (max best (share s)) steps

-- One element at least has the property.
pub data Some {A : Type 0} (P : A → Type 0) : List A → Type 0 where
  here : {x : A} {xs : List A} → P x → Some P (x ∷ xs)
  there : {x : A} {xs : List A} → Some P xs → Some P (x ∷ xs)

peak-le : (best : ℕ) (steps : List TimedStep) → best ≤ peak best steps
peak-le best [] = omega arith
peak-le best (s ∷ steps) = omega (arith, peak-le (max best (share s)) steps)

peak-most :
    (best rate : ℕ) (steps : List TimedStep)
    → All Counts steps
    → All (λ s. Carries s rate → rate ≤ peak best steps) steps
peak-most best rate [] few = tt
peak-most best rate (s ∷ steps) (few, rest) = (
  λ c.
      (let h = Carries→share s rate few c in
        let l = peak-le (max best (share s)) steps in omega (arith, h, l)),
  peak-most (max best (share s)) rate steps rest,
)

peak-carried :
    (best : ℕ) (steps : List TimedStep)
    → All Counts steps
    → best < peak best steps
    → Some (λ s. Carries s (peak best steps)) steps
peak-carried best [] few h = (let impossible : ⊥ = omega (arith, h) in elim impossible [ ])
peak-carried best (s ∷ steps) (few, rest) h =
    let next = max best (share s) in
    let l = peak-le next steps in
    elim (Bool-cases (ltb next (peak next steps))) [
      | inl later ↦ there (peak-carried next steps rest (ground arith))
      | inr now ↦
          let same : peak next steps ≡ next = ground arith in
          here (share→Carries s (peak next steps) few (omega (arith, h)) (omega (arith, same, h)))
    ]

rate_of-none : (rate : ℕ) → rate_of rate ≡ none → rate ≡ 0
rate_of-none rate h = ground arith

rate_of-some : (rate best : ℕ) → rate_of rate ≡ some best → (rate ≡ best) × (0 < best)
rate_of-some rate best h = ground arith

none_carried :
    (rate best : ℕ) (steps : List TimedStep)
    → 0 < rate
    → best ≡ 0
    → All (λ s. Carries s rate → rate ≤ best) steps
    → All (λ s. ¬ Carries s rate) steps
none_carried rate best [] some_rate zero_best a = tt
none_carried rate best (s ∷ steps) some_rate zero_best a = (
  λ c. (let l = a.0 c in omega (arith, l, some_rate, zero_best)),
  none_carried rate best steps some_rate zero_best a.1,
)

-- The rate that a probe establishes is the greatest that one of its steps carries, when the counts of bytes are u32, and there is none when no step carries any. A step carries a rate when something was sent, 90% of it arrived, the rate is at most the step's own and at most 8 Mbit/s, and, when both times were measured, at that rate no more bits would have passed in either time than the packets sent in the one and received in the other have on the wire.
pub highest_sustainable_step_timed_lem :
    (steps : List TimedStep)
    → All Counts steps
    → let out = highest_sustainable_step_timed steps in
      (out ≡ none → (rate : ℕ) → 0 < rate → All (λ s. ¬ Carries s rate) steps)
      × ((best : ℕ)
          → out ≡ some best
          → (0 < best)
            × Some (λ s. Carries s best) steps
            × ((rate : ℕ) → All (λ s. Carries s rate → rate ≤ best) steps))
unfolding highest_sustainable_step_timed
highest_sustainable_step_timed_lem steps few =
    let e = highest_from_lem 0 steps in
    (
      λ h rate some_rate.
          none_carried rate (peak 0 steps) steps some_rate (rate_of-none (peak 0 steps) (sym e ∙ h))
            (peak-most 0 rate steps few),
      λ best h.
          (let (same, more) = rate_of-some (peak 0 steps) best (sym e ∙ h) in
            (
              more,
              subst (λ (b : ℕ). Some (λ s. Carries s b) steps) same
                  (peak-carried 0 steps few (omega (arith, same, more))),
              λ rate.
                  subst (λ (b : ℕ). All (λ s. Carries s rate → rate ≤ b) steps) same
                    (peak-most 0 rate steps few),
            )),
    )
