-- ===== src/Daemon/Sending/Accounts.antt =====
-- The plan of a probe train and the bytes that are counted of it (`run_sender` of src/daemon/mod.rs).
use remote_au.Common.{
  ℕ, zero, suc, ◌+◌, ◌≤◌, ◌≡◌, inl, inr, ◌==◌, Option, none, some, List, [], ◌∷◌, length, get_elem?,
  sat_add, u32_max, Bool-cases, arith,
}
use mathlib.Core.Path.{subst}
use remote_au.Crypto.Session.{Crates}
use remote_au.Daemon.Sending.{count_probe}
use remote_au.Protocol.Wire.Bodies.{Steps}
use remote_au.Transport.Adapt.Probe.{ProbePacketSpec}
use remote_au.Transport.Adapt.Probe.Laws.{IsProbe, Probes}
use remote_au.Transport.Adapt.State.{LossFloat}
use remote_au.Transport.Sender.{step_at, with_step}

-- The bytes of the five steps.
abbrev pub total : Steps → ℕ
total s = s.s0 + (s.s1 + (s.s2 + (s.s3 + s.s4)))

total-with_step :
    (s : Steps) (i n : ℕ) → total (with_step s i (sat_add u32_max (step_at s i) n)) ≤ total s + n
total-with_step s i n = elim (Bool-cases (i == 0)) [
  | inl a ↦ simp a (omega arith)
  | inr a ↦ elim (Bool-cases (i == 1)) [
    | inl b ↦ simp (a, b) (omega arith)
    | inr b ↦ elim (Bool-cases (i == 2)) [
      | inl c ↦ simp (a, b, c) (omega arith)
      | inr c ↦ elim (Bool-cases (i == 3)) [
        | inl d ↦ simp (a, b, c, d) (omega arith)
        | inr d ↦ elim (Bool-cases (i == 4)) [
          | inl e ↦ simp (a, b, c, d, e) (omega arith)
          | inr e ↦ simp (a, b, c, d, e) (omega arith)
        ]
      ]
    ]
  ]
]

pub get_elem?-Probes :
    (n : ℕ) (plan : List ProbePacketSpec) (i : ℕ) (spec : ProbePacketSpec)
    → Probes n plan
    → get_elem? plan i ≡ some spec
    → IsProbe (n + i) spec
get_elem?-Probes n [] i spec a h = cc
get_elem?-Probes n (p ∷ plan) zero spec a h =
    let same : p ≡ spec = cc in
    let at : n ≡ n + 0 = omega arith in
    subst (λ (k : ℕ). IsProbe k spec) at (subst (IsProbe n) same a.0)
get_elem?-Probes n (p ∷ plan) (suc i) spec a h =
    let at : n + 1 + i ≡ n + suc i = omega arith in
    subst (λ (k : ℕ). IsProbe k spec) at (get_elem?-Probes (n + 1) plan i spec a.1 h)

pub get_elem?-lt :
    (xs : List ProbePacketSpec) (i : ℕ) (x : ProbePacketSpec)
    → get_elem? xs i ≡ some x
    → i + 1 ≤ length xs
get_elem?-lt [] i x k = cc
get_elem?-lt (y ∷ ys) zero x k = omega arith
get_elem?-lt (y ∷ ys) (suc i) x k = omega (arith, get_elem?-lt ys i x k)

module _ (crates : Crates) (f : LossFloat) where
  pub total-count_probe :
      (sent : Steps) (spec : ProbePacketSpec) (packet : Option (List ℕ))
      → total (count_probe crates f sent spec packet) ≤ total sent + spec.payload
  unfolding count_probe
  total-count_probe sent spec none = omega arith
  total-count_probe sent spec (some packet) = total-with_step sent spec.step spec.payload
