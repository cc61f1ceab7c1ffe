-- ===== src/Transport/Adapt/Probe/Laws.antt =====
-- The packets of a probe plan (`plan_probe` of src/transport/adapt.rs).
use mathlib.Core.Path.{subst}
use remote_au.Common.{
  sym, ◌^◌, ℕ, zero, suc, ◌+◌, ◌*◌, ◌/◌, ◌≤◌, ◌<◌, ◌≡◌, refl, ap, ◌∙◌, inl, inr, true, false, List,
  [], ◌∷◌, ◌++◌, min, max, length, ltb, arith, Bool-cases, length-append,
}
use remote_au.Transport.Adapt.Probe.{
  ProbePacketSpec, Planning, max_probe_bytes, probe_steps_bps, probe_wire_size, probe_payload_bytes,
  spec_of, plan_packets, plan_steps, plan_probe,
}

-- The packet with number `i` of a whole train: 20 packets for each step, whose rates double from
-- 500 kbit/s; its 7000 bits and the pause after it make that rate.
pub record IsProbe (i : ℕ) (s : ProbePacketSpec) : Type 0 where
  pub at_step : s.step ≡ i / 20
  pub at_rate : s.rate_bps ≡ 500000 * 2 ^ (i / 20)
  pub paced : s.delay_after * s.rate_bps ≡ 7000 * 1000000
  pub sized : s.datagram_len ≡ 875
  pub filled : s.payload ≡ probe_payload_bytes

-- Packets with the numbers from `i` on.
abbrev pub Probes : ℕ → List ProbePacketSpec → Type 0
Probes i [] = Unit
Probes i (s ∷ specs) = IsProbe i s × Probes (i + 1) specs

Probes-append :
    (i : ℕ) (xs ys : List ProbePacketSpec)
    → Probes i xs
    → Probes (i + length xs) ys
    → Probes i (xs ++ ys)
Probes-append i [] ys h k =
    (let same : i + zero ≡ i = omega arith in subst (λ (n : ℕ). Probes n ys) same k)
Probes-append i (x ∷ xs) ys h k = (
  h.0,
  Probes-append (i + 1) xs ys h.1 (
      let same : i + suc (length xs) ≡ i + 1 + length xs = omega arith in
      subst (λ (n : ℕ). Probes n ys) same k),
)

-- The rate of a step, and its pause.
abbrev IsRate : ℕ → ℕ → Type 0
IsRate step rate =
    (rate ≡ 500000 * 2 ^ step) × (max (7000000000 / max rate 1) 1 * rate ≡ 7000000000)

abbrev IsRates : ℕ → List ℕ → Type 0
IsRates step [] = Unit
IsRates step (rate ∷ rates) = IsRate step rate × IsRates (step + 1) rates

spec_of-IsProbe :
    (i step rate : ℕ) → i / 20 ≡ step → IsRate step rate → IsProbe i (spec_of step rate)
unfolding spec_of
spec_of-IsProbe i step rate e r = record {
  at_step = sym e;
  at_rate = r.0 ∙ ap (λ (n : ℕ). 500000 * 2 ^ n) (sym e);
  paced = r.1;
  sized = refl;
  filled = refl;
}

-- A plan within its budget; when `full`, one more packet would not fit.
record Planned (max_bytes rounds : ℕ) (p out : Planning) : Type 0 where
  fits : out.used ≤ max_bytes
  counted : out.used ≡ 875 * length out.plan
  probes : Probes 0 out.plan
  ends : out.full ≡ true → max_bytes < out.used + 875
  runs : out.full ≡ false → length out.plan ≡ length p.plan + rounds
  below : length out.plan ≤ length p.plan + rounds

plan_packets-Planned :
    (left max_bytes step rate : ℕ) (p : Planning)
    → p.used ≤ max_bytes
    → p.used ≡ 875 * length p.plan
    → Probes 0 p.plan
    → p.full ≡ false
    → left ≤ 20
    → length p.plan + left ≡ 20 * step + 20
    → IsRate step rate
    → Planned max_bytes left p (plan_packets left max_bytes step rate p)
unfolding plan_packets
plan_packets-Planned zero max_bytes step rate p h c a f few at r = record {
  fits = h;
  counted = c;
  probes = a;
  ends = λ e. cc;
  runs = λ e. omega arith;
  below = omega arith;
}
plan_packets-Planned (suc left) max_bytes step rate p h c a f few at is =
    let size : length (p.plan ++ (spec_of step rate ∷ [])) ≡ length p.plan + 1 =
      length-append p.plan (spec_of step rate ∷ []) in
    elim (Bool-cases (ltb max_bytes (p.used + 875))) [
      | inl over ↦ simp over (record {
        fits = h;
        counted = c;
        probes = a;
        ends = λ _. ground arith;
        runs = λ e. cc;
        below = omega arith;
      })
      | inr room ↦ simp room (
          let r =
            plan_packets-Planned left max_bytes step rate
              (record p { plan = p.plan ++ (spec_of step rate ∷ []); used = p.used + 875 })
              (ground arith) (omega (arith, size))
              (Probes-append 0 p.plan _ a
                (spec_of-IsProbe (0 + length p.plan) step rate (omega (arith, at, few)) is, tt))
              f (omega arith) (omega (arith, at, size)) is in
          record {
            fits = r.fits;
            counted = r.counted;
            probes = r.probes;
            ends = r.ends;
            runs = λ e. omega (arith, r.runs e, size);
            below = omega (arith, r.below, size);
          })
    ]

-- What a run of the steps gives: a plan, and one that was full stays.
record Stepped (max_bytes rounds : ℕ) (p out : Planning) : Type 0 where
  planned : Planned max_bytes rounds p out
  kept : p.full ≡ true → out.full ≡ true

plan_steps-Stepped :
    (rates : List ℕ) (max_bytes step : ℕ) (p : Planning)
    → p.used ≤ max_bytes
    → p.used ≡ 875 * length p.plan
    → Probes 0 p.plan
    → IsRates step rates
    → (p.full ≡ false → length p.plan ≡ 20 * step)
    → (p.full ≡ true → max_bytes < p.used + 875)
    → Stepped max_bytes (20 * length rates) p (plan_steps max_bytes step rates p)
unfolding plan_steps
plan_steps-Stepped [] max_bytes step p h c a is at f = record {
  planned = record {
    fits = h;
    counted = c;
    probes = a;
    ends = f;
    runs = λ e. omega arith;
    below = omega arith;
  };
  kept = λ e. e;
}
plan_steps-Stepped (rate ∷ rates) max_bytes step p h c a is at f = elim (Bool-cases p.full) [
  | inl stop ↦ simp stop (record {
    planned = record {
      fits = h;
      counted = c;
      probes = a;
      ends = f;
      runs = λ e. cc;
      below = omega arith;
    };
    kept = λ e. e;
  })
  | inr go ↦
      let r =
        plan_packets-Planned 20 max_bytes step rate p h c a go (omega arith) (omega (arith, at go))
          is.0 in
      let s =
        plan_steps-Stepped rates max_bytes (step + 1) (plan_packets 20 max_bytes step rate p) r.fits
          r.counted r.probes is.1 (λ k. omega (arith, r.runs k, at go)) r.ends in
      simp go (record {
        planned = record {
          fits = s.planned.fits;
          counted = s.planned.counted;
          probes = s.planned.probes;
          ends = s.planned.ends;
          runs = λ k. elim (Bool-cases (plan_packets 20 max_bytes step rate p).full) [
            | inl full ↦ (let no = s.kept full in cc)
            | inr more ↦ omega (arith, s.planned.runs k, r.runs more)
          ];
          below = omega (arith, s.planned.below, r.below);
        };
        kept = λ e. cc;
      })
]

probe_steps_bps-IsRates : IsRates 0 probe_steps_bps
probe_steps_bps-IsRates =
    ((refl, refl), ((refl, refl), ((refl, refl), ((refl, refl), ((refl, refl), tt)))))

-- A probe plan has as many packets as the budget holds, 131072 bytes at most, and at most 100 of them. They come in steps of 20, with numbers from 0 on, at rates that double from 500 kbit/s; every packet is one datagram of 875 bytes, 800 of them payload, and the pause after it is the time that its 7000 bits take at its rate, to the microsecond.
pub plan_probe-budget :
    (max_bytes : ℕ)
    → (length (plan_probe max_bytes) ≡ min 100 (min max_bytes max_probe_bytes / probe_wire_size))
      × Probes 0 (plan_probe max_bytes)
unfolding plan_probe
plan_probe-budget max_bytes =
    let s =
      (plan_steps-Stepped probe_steps_bps (min max_bytes max_probe_bytes) 0
        (record { plan = []; used = 0; full = false }) (omega arith) refl tt probe_steps_bps-IsRates
        (λ e. refl) (λ e. cc)).planned in
    let out =
      plan_steps (min max_bytes max_probe_bytes) 0 probe_steps_bps
        (record { plan = []; used = 0; full = false }) in
    (
      elim (Bool-cases out.full) [
        | inl e ↦ omega (arith, s.fits, s.counted, s.ends e, s.below)
        | inr e ↦ omega (arith, s.fits, s.counted, s.runs e, s.below)
      ],
      s.probes,
    )
