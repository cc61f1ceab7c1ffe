-- ===== src/Transport/Adapt/Tests.antt =====
-- The adaptation on concrete input.
use remote_au.Common.{
  ℕ, ◌+◌, ◌/◌, ◌≤◌, ◌<◌, ◌≡◌, true, false, none, some, List, [], ◌∷◌, length, min, leb, All, arith,
}
use remote_au.Transport.Adapt.Probe.{
  TimedStep, plan_probe, highest_sustainable_step_timed, max_probe_bytes, default_buffer_ms,
  probe_wire_size, profile_for_floor,
}
use remote_au.Transport.Adapt.Probe.Laws.{Probes, plan_probe-budget}
use remote_au.Transport.Adapt.Probe.Sustained.{Some, highest_sustainable_step_timed_lem}
use remote_au.Transport.Adapt.Probe.Carried.{Carries}
use remote_au.Transport.Adapt.State.{
  LossFloat, PathSample, ReceiverAdapt, start, apply_floor, observe, rank,
}
use remote_au.Transport.Adapt.State.Laws.{
  IsValid, start-IsValid, apply_floor_lem, observe_lem, InRange, Nearer, Worse, Same, needed_ms,
}

plan_probe-budget_example :
    (length (plan_probe 40000) ≡ min 100 (min 40000 max_probe_bytes / probe_wire_size))
    × Probes 0 (plan_probe 40000)
plan_probe-budget_example = plan_probe-budget 40000

-- The first step is timed: 10 packets in 200 ms; of the second, too few bytes arrive.
abbrev steps : List TimedStep
steps =
    record { rate = 500000; sent = 8000; recv = 8000; send_us = 150000; recv_us = 200000 }
    ∷ record { rate = 1000000; sent = 8000; recv = 100; send_us = 0; recv_us = 0 }
    ∷ []

-- 70000 bits in 200 ms.
highest_sustainable_step_timed_lem_example :
    let out = highest_sustainable_step_timed steps in
    (out ≡ none → (rate : ℕ) → 0 < rate → All (λ s. ¬ Carries s rate) steps)
    × ((best : ℕ)
        → out ≡ some best
        → (0 < best)
          × Some (λ s. Carries s best) steps
          × ((rate : ℕ) → All (λ s. Carries s rate → rate ≤ best) steps))
highest_sustainable_step_timed_lem_example =
    highest_sustainable_step_timed_lem steps
      ((omega arith, omega arith), ((omega arith, omega arith), tt))

apply_floor_lem_example :
    let out = apply_floor start (some 600000) true in
    let target = profile_for_floor (some 600000) in
    IsValid out
    × (rank start.profile ≤ rank target → out.profile ≡ target)
    × (true ≡ false → out.profile ≡ target)
    × (rank target < rank start.profile → true ≡ true → rank out.profile + 1 ≡ rank start.profile)
apply_floor_lem_example = apply_floor_lem start (some 600000) true

-- A loss in hundredths, rounded to none.
abbrev hundredths : LossFloat
hundredths = record {
  Float = ℕ;
  none_lost = 0;
  all_lost = 100;
  ratio = λ a b. 0;
  is_finite = λ x. true;
  clamp_unit = λ x. x;
  at_least = λ x n. leb n x;
}

abbrev sample : PathSample hundredths
sample = record { loss = 12; rtt_us = 40000; jitter_us = 9000; underruns = 1 }

observe_lem_example :
    let out = observe hundredths start sample in
    IsValid out
    × Nearer
        (needed_ms (default_buffer_ms start.profile) 40000 9000 1)
        start.target_buffer_ms
        out.target_buffer_ms
    × (true ≡ true → Worse start out)
    × (3 ≤ 1 → Worse start out)
    × (true ≡ false
        → 1 < 3
        → (true ≡ true → start.bad ≡ 0 → Same 1 start out)
          × (true ≡ true → start.bad ≡ 1 → Worse start out)
          × (true ≡ false → Same 0 start out))
observe_lem_example = observe_lem hundredths start sample start-IsValid

abbrev receiver : ReceiverAdapt
receiver = record { target_ms = 60; stable = 2 }

receiver-InRange : InRange receiver
receiver-InRange = (omega arith, omega arith)
