-- ===== src/Transport/Adapt/Probe/Carried.antt =====
-- The rates that one step of a probe carries (`highest_sustainable_step_timed` of src/transport/adapt.rs).
use native.Mathlib.Nat.{le-div_iff_mul-le, zero-div}
use mathlib.Core.Path.{ap₂}
use remote_au.Common.{
  ℕ, zero, suc, ◌+◌, ◌*◌, ◌/◌, ◌^◌, ◌%◌, ◌≤◌, ◌<◌, ◌≡◌, ◌⊎◌, ◌||◌, ◌&&◌, refl, ap, sym, ◌∙◌, inl,
  inr, true, false, min, ltb, ◌==◌, if◌then◌else◌, arith, Bool-cases,
}
use remote_au.Transport.Adapt.Probe.{TimedStep, capped, effective_goodput_bps, probe_wire_bytes}

-- The bits on the wire of so many bytes of payload: packets of 800 bytes, each of 875 on the wire.
abbrev pub wire_bits : ℕ → ℕ
wire_bits n = (n + 799) / 800 * 7000

-- A step carries a rate: something was sent, 90% of it arrived, the rate is no more than the step's
-- and 8 Mbit/s, and, when both times were measured, in neither of them more would have passed at that
-- rate than did.
pub record Carries (s : TimedStep) (rate : ℕ) : Type 0 where
  pub used : 0 < s.sent
  pub arrived : s.sent * 90 ≤ s.recv * 100
  pub planned : rate ≤ s.rate
  pub most : rate ≤ 8000000
  pub sending : 0 < s.send_us → 0 < s.recv_us → rate * s.send_us ≤ wire_bits s.sent * 1000000
  pub receiving : 0 < s.send_us → 0 < s.recv_us → rate * s.recv_us ≤ wire_bits s.recv * 1000000

-- The counts of bytes are u32.
abbrev pub Counts : TimedStep → Type 0
Counts s = (s.sent < 2 ^ 32) × (s.recv < 2 ^ 32)

wire_lem : (n : ℕ) → n < 2 ^ 32 → probe_wire_bytes n * 8 * 1000000 % 2 ^ 64 ≡ wire_bits n * 1000000
unfolding probe_wire_bytes
wire_lem n small = elim (Bool-cases (n == 0)) [
  | inl nothing ↦ simp nothing (ground arith)
  | inr something ↦ simp something (omega arith)
]

goodput_lem :
    (n us : ℕ)
    → n < 2 ^ 32
    → 0 < us
    → effective_goodput_bps (probe_wire_bytes n) us ≡ wire_bits n * 1000000 / us
unfolding effective_goodput_bps
goodput_lem n us small more = elim (Bool-cases (us == 0 || probe_wire_bytes n == 0)) [
  | inl unsent ↦
      let empty : probe_wire_bytes n ≡ 0 = ground arith in
      let nothing : wire_bits n * 1000000 ≡ 0 = omega (arith, empty, wire_lem n small) in
      simp unsent (sym (ap (λ (x : ℕ). x / us) nothing ∙ zero-div us))
  | inr measured ↦ simp measured (ap (λ x. x / us) (wire_lem n small))
]

-- What the code computes of a step.
abbrev pub share : TimedStep → ℕ
share s =
    if s.sent == 0
    then 0
    else if ltb (s.recv * 100) (s.sent * 90)
    then 0
    else min (capped s) 8000000

share→parts :
    (s : TimedStep) (rate : ℕ)
    → 0 < rate
    → rate ≤ share s
    → (0 < s.sent) × (s.sent * 90 ≤ s.recv * 100) × (rate ≤ capped s) × (rate ≤ 8000000)
share→parts s rate some_rate l = ground arith

parts→share :
    (s : TimedStep) (rate : ℕ)
    → 0 < s.sent
    → s.sent * 90 ≤ s.recv * 100
    → rate ≤ capped s
    → rate ≤ 8000000
    → rate ≤ share s
parts→share s rate u a c m = ground arith

capped-timed :
    (s : TimedStep)
    → 0 < s.send_us
    → 0 < s.recv_us
    → Counts s
    → capped s
      ≡ min
          (min s.rate (wire_bits s.sent * 1000000 / s.send_us))
          (wire_bits s.recv * 1000000 / s.recv_us)
unfolding capped
capped-timed s send recv (few_sent, few_recv) =
    let timed : (ltb 0 s.send_us && ltb 0 s.recv_us) ≡ true = ground arith in
    simp timed (
      ap₂ (λ (x y : ℕ). min (min s.rate x) y) (goodput_lem s.sent s.send_us few_sent send)
        (goodput_lem s.recv s.recv_us few_recv recv))

capped-untimed : (s : TimedStep) → (s.send_us ≡ 0) ⊎ (s.recv_us ≡ 0) → capped s ≡ s.rate
unfolding capped
capped-untimed s u =
    let untimed : (ltb 0 s.send_us && ltb 0 s.recv_us) ≡ false = ground arith in simp untimed refl

times_cases : (a b : ℕ) → ((0 < a) × (0 < b)) ⊎ ((a ≡ 0) ⊎ (b ≡ 0))
times_cases zero b = inr (inl refl)
times_cases (suc a) zero = inr (inr refl)
times_cases (suc a) (suc b) = inl (omega arith, omega arith)

pub Carries→share : (s : TimedStep) (rate : ℕ) → Counts s → Carries s rate → rate ≤ share s
Carries→share s rate few c = parts→share s rate c.used c.arrived within c.most
  where
    within : rate ≤ capped s
    within = elim (times_cases s.send_us s.recv_us) [
      | inl (send, recv) ↦
          let i =
            (le-div_iff_mul-le {x = rate} {y = wire_bits s.sent * 1000000} send).1
              (c.sending send recv) in
          let j =
            (le-div_iff_mul-le {x = rate} {y = wire_bits s.recv * 1000000} recv).1
              (c.receiving send recv) in
          omega (arith, capped-timed s send recv few, i, j, c.planned)
      | inr u ↦ omega (arith, capped-untimed s u, c.planned)
    ]

pub share→Carries :
    (s : TimedStep) (rate : ℕ) → Counts s → 0 < rate → rate ≤ share s → Carries s rate
share→Carries s rate few some_rate l =
    let (u, a, c, m) = share→parts s rate some_rate l in
    elim (times_cases s.send_us s.recv_us) [
      | inl (send, recv) ↦
          let e = capped-timed s send recv few in
          record {
            used = u;
            arrived = a;
            planned = omega (arith, c, e);
            most = m;
            sending = λ x y.
                (le-div_iff_mul-le {x = rate} {y = wire_bits s.sent * 1000000} send).0
                  (omega (arith, c, e));
            receiving = λ x y.
                (le-div_iff_mul-le {x = rate} {y = wire_bits s.recv * 1000000} recv).0
                  (omega (arith, c, e));
          }
      | inr n ↦ record {
        used = u;
        arrived = a;
        planned = omega (arith, c, capped-untimed s n);
        most = m;
        sending = λ x y. ground arith;
        receiving = λ x y. ground arith;
      }
    ]
