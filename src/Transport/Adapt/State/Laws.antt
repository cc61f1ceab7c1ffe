-- ===== src/Transport/Adapt/State/Laws.antt =====
-- Bounds and direction of the adaptation steps.
use mathlib.Core.Path.{subst, sym}
use remote_au.Common.{
  inl, inr, refl, Bool-cases, ◌||◌, leb, sat_add, ℕ, ◌+◌, ◌/◌, ◌≤◌, ◌<◌, ◌≡◌, Bool, true, false,
  Option, min, max, arith, u64_max, ◌==◌, if◌then◌else◌,
}
use remote_au.Transport.Adapt.Probe.{
  Profile, pcm, adpcm48, adpcm24, default_buffer_ms, profile_for_floor,
}
use remote_au.Transport.Adapt.State.{
  AdaptState, LossFloat, PathSample, ReceiverAdapt, start, apply_floor, observe, wanted_ms,
  approach, finite_loss, rank, observe_jitter, next_pace, advance_pace, min_buffer_ms,
  max_buffer_ms,
}

-- The buffer stays between 20 and 150 ms, and one bad sample at most is remembered.
pub record IsValid (a : AdaptState) : Type 0 where
  pub low : min_buffer_ms ≤ a.target_buffer_ms
  pub high : a.target_buffer_ms ≤ max_buffer_ms
  pub bad_few : a.bad ≤ 1

pub start-IsValid : IsValid start
unfolding start
start-IsValid = omega arith

-- `apply_floor` gives a valid state whatever the state before, and takes a worse floor at once; a
-- better one it takes at once unless `gradual`, and then by one quality step.
pub apply_floor_lem :
    (a : AdaptState) (floor_bps : Option ℕ) (gradual : Bool)
    → let out = apply_floor a floor_bps gradual in
      let target = profile_for_floor floor_bps in
      IsValid out
      × (rank a.profile ≤ rank target → out.profile ≡ target)
      × (gradual ≡ false → out.profile ≡ target)
      × (rank target < rank a.profile → gradual ≡ true → rank out.profile + 1 ≡ rank a.profile)
unfolding apply_floor
apply_floor_lem a floor_bps gradual = ground arith

-- A quality step down, to the last at most; and the same quality, with `n` bad samples remembered.
abbrev pub Worse : AdaptState → AdaptState → Type 0
Worse a out = (rank out.profile ≡ min 2 (rank a.profile + 1)) × (out.bad ≡ 0)

abbrev pub Same : ℕ → AdaptState → AdaptState → Type 0
Same n a out = (out.profile ≡ a.profile) × (out.bad ≡ n)

-- The buffer is the wanted one when that is ten away at most, and else ten nearer to it.
abbrev pub Nearer : ℕ → ℕ → ℕ → Type 0
Nearer want before after =
    (want ≤ before + 10 → before ≤ want + 10 → after ≡ want)
    × (before + 10 < want → after ≡ before + 10)
    × (want + 10 < before → after + 10 ≡ before)

-- The buffer for a quality's default, the jitter, half the round trip, and 20 ms after an underrun.
abbrev pub needed_ms : ℕ → ℕ → ℕ → ℕ → ℕ
needed_ms default rtt_us jitter_us underruns =
    min 150 (default + jitter_us / 1000 + rtt_us / 2000 + (if underruns == 0 then 0 else 20))

wanted-needed :
    (p : Profile) (rtt_us jitter_us underruns : ℕ)
    → wanted_ms p rtt_us jitter_us underruns
      ≡ needed_ms (default_buffer_ms p) rtt_us jitter_us underruns
wanted-needed pcm rtt_us jitter_us underruns = ground arith
wanted-needed adpcm48 rtt_us jitter_us underruns = ground arith
wanted-needed adpcm24 rtt_us jitter_us underruns = ground arith

approach-Nearer : (before want : ℕ) → before ≤ 150 → Nearer want before (approach before want)
approach-Nearer before want h = ground arith

module _ (f : LossFloat) where
  observe-target :
      (a : AdaptState) (s : PathSample f)
      → (observe f a s).target_buffer_ms
        ≡ approach a.target_buffer_ms (wanted_ms a.profile s.rtt_us s.jitter_us s.underruns)
  unfolding observe
  observe-target a s =
      elim (Bool-cases (f.at_least (finite_loss f s.loss) 10 || leb 3 s.underruns)) [
        | inl heavy ↦ simp heavy refl
        | inr lighter ↦ elim (Bool-cases (f.at_least (finite_loss f s.loss) 4)) [
          | inl some_lost ↦ elim (Bool-cases (leb 2 (sat_add 255 a.bad 1))) [
            | inl again ↦ simp (lighter, some_lost, again) refl
            | inr first ↦ simp (lighter, some_lost, first) refl
          ]
          | inr few ↦ simp (lighter, few) refl
        ]
      ]

  -- `observe` keeps the state valid. The buffer becomes the one needed, 150 ms at most, or ten nearer to it when that is further away. The quality takes one step down, and the bad samples are forgotten, at a loss of 10% or three underruns, and at the second sample in a row with a loss of 4%; the first of these is remembered, and any other sample keeps the quality and forgets it.
  pub observe_lem :
      (a : AdaptState) (s : PathSample f)
      → IsValid a
      → let out = observe f a s in
        let loss = finite_loss f s.loss in
        IsValid out
        × Nearer
            (needed_ms (default_buffer_ms a.profile) s.rtt_us s.jitter_us s.underruns)
            a.target_buffer_ms
            out.target_buffer_ms
        × (f.at_least loss 10 ≡ true → Worse a out)
        × (3 ≤ s.underruns → Worse a out)
        × (f.at_least loss 10 ≡ false
            → s.underruns < 3
            → (f.at_least loss 4 ≡ true → a.bad ≡ 0 → Same 1 a out)
              × (f.at_least loss 4 ≡ true → a.bad ≡ 1 → Worse a out)
              × (f.at_least loss 4 ≡ false → Same 0 a out))
  unfolding observe
  observe_lem a s v = (
    ground arith,
    subst
        (Nearer (needed_ms (default_buffer_ms a.profile) s.rtt_us s.jitter_us s.underruns)
          a.target_buffer_ms)
        (sym (observe-target a s))
        (subst
          (λ (want : ℕ).
            Nearer want a.target_buffer_ms
              (approach a.target_buffer_ms (wanted_ms a.profile s.rtt_us s.jitter_us s.underruns)))
          (wanted-needed a.profile s.rtt_us s.jitter_us s.underruns)
          (approach-Nearer a.target_buffer_ms _ v.high)),
    ground arith,
    ground arith,
    λ x y. (ground arith, ground arith, ground arith),
  )

-- Between 20 and 150 ms.
abbrev pub InRange : ReceiverAdapt → Type 0
InRange a = (min_buffer_ms ≤ a.target_ms) × (a.target_ms ≤ max_buffer_ms)

-- The receiver's target stays between 20 and 150 ms. An underrun raises it by 15 ms at once, to 150 at
-- most; it falls by 5 ms at most, and only without an underrun and after two stable observations.
pub observe_jitter_lem :
    (a : ReceiverAdapt) (jitter_us underruns : ℕ)
    → InRange a
    → let out = observe_jitter a jitter_us underruns in
      InRange out
      × (0 < underruns → out.target_ms ≡ min (a.target_ms + 15) max_buffer_ms)
      × (out.target_ms < a.target_ms
          → (underruns ≡ 0) × (2 ≤ a.stable) × (a.target_ms ≤ out.target_ms + 5))
unfolding observe_jitter
observe_jitter_lem a jitter_us underruns h = ground arith

-- A sender that lags by more than 15 ms skips ahead; else the schedule moves by 5 ms. So the next
-- packet is due no more than 10 ms in the past, and 5 ms at most after the later of both times.
pub next_pace_lem :
    (scheduled now : ℕ)
    → scheduled + 5000 ≤ u64_max
    → now + 5000 ≤ u64_max
    → (next_pace scheduled now ≡ advance_pace scheduled now)
      × (now ≤ next_pace scheduled now + 10000)
      × (next_pace scheduled now ≤ max scheduled now + 5000)
      × (scheduled < next_pace scheduled now)
unfolding next_pace advance_pace
next_pace_lem scheduled now h k = ground arith
