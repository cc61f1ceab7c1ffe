-- ===== src/Transport/Adapt/State.antt =====
-- src/transport/adapt.rs: `AdaptState` of the sender, `ReceiverAdapt`, and the pacing.
pub mod Laws
use remote_au.Common.{
  ℕ, ◌+◌, ◌-◌, ◌/◌, ◌%◌, ◌^◌, Bool, true, false, ◌||◌, ◌&&◌, Option, none, some, min, max, ltb, leb,
  ◌==◌, not, if◌then◌else◌, clamp, sat_add, u32_max, u64_max,
}
use remote_au.Transport.Adapt.Probe.{
  Profile, pcm, adpcm48, adpcm24, default_buffer_ms, profile_for_floor,
}

abbrev pub min_buffer_ms : ℕ
min_buffer_ms = 20

abbrev pub max_buffer_ms : ℕ
max_buffer_ms = 150

-- What the code uses of f32 for a loss share: `ratio a b` is `a as f32 / b as f32`, and `at_least x n`
-- is `x >= n / 100` for the literals 0.10 and 0.04.
pub record LossFloat : Type 1 where
  pub Float : Type 0
  pub none_lost : Float
  pub all_lost : Float
  pub ratio : ℕ → ℕ → Float
  pub is_finite : Float → Bool
  pub clamp_unit : Float → Float
  pub at_least : Float → ℕ → Bool

abbrev pub rank : Profile → ℕ
rank pcm = 0
rank adpcm48 = 1
rank adpcm24 = 2

abbrev pub step_down : Profile → Profile
step_down pcm = adpcm48
step_down adpcm48 = adpcm24
step_down adpcm24 = adpcm24

abbrev pub step_up : Profile → Profile
step_up adpcm24 = adpcm48
step_up adpcm48 = pcm
step_up pcm = pcm

pub record AdaptState : Type 0 where
  pub profile : Profile
  pub target_buffer_ms : ℕ
  pub bad : ℕ

pub start : AdaptState
start = record { profile = pcm; target_buffer_ms = default_buffer_ms pcm; bad = 0 }

pub apply_floor : AdaptState → Option ℕ → Bool → AdaptState
apply_floor a floor_bps gradual =
    let target = profile_for_floor floor_bps in
    let moved : AdaptState =
      if ltb (rank a.profile) (rank target)
      then record a {
        profile = target;
        target_buffer_ms = max a.target_buffer_ms (default_buffer_ms target);
      }
      else if not gradual
      then record a { profile = target; target_buffer_ms = default_buffer_ms target }
      else if ltb (rank target) (rank a.profile)
      then record a { profile = step_up a.profile }
      else a in
    record moved {
      target_buffer_ms = clamp moved.target_buffer_ms min_buffer_ms max_buffer_ms;
      bad = 0;
    }

-- The buffer that `observe` wants.
abbrev pub wanted_ms : Profile → ℕ → ℕ → ℕ → ℕ
wanted_ms profile rtt_us jitter_us underruns =
    let base = sat_add u32_max (default_buffer_ms profile) (jitter_us / 1000) in
    let delayed = sat_add u32_max base (rtt_us / 2000) in
    clamp (if ltb 0 underruns then sat_add u32_max delayed 20 else delayed) min_buffer_ms
      max_buffer_ms

-- The target moves towards it, by ten at most.
abbrev pub approach : ℕ → ℕ → ℕ
approach target want =
    if ltb target want
    then min ((target + 10) % 2 ^ 32) want
    else if ltb want target
    then max (target - 10) want
    else target

module _ (f : LossFloat) where
  pub record PathSample : Type 0 where
    pub loss : f.Float
    pub rtt_us : ℕ
    pub jitter_us : ℕ
    pub underruns : ℕ

  abbrev pub finite_loss : f.Float → f.Float
  finite_loss x = if f.is_finite x then f.clamp_unit x else f.all_lost

  pub observe : AdaptState → PathSample → AdaptState
  observe a s =
      let want = wanted_ms a.profile s.rtt_us s.jitter_us s.underruns in
      let buffered : AdaptState = record a {
        target_buffer_ms = approach a.target_buffer_ms want;
      } in
      let loss = finite_loss s.loss in
      let bad = sat_add 255 a.bad 1 in
      if f.at_least loss 10 || leb 3 s.underruns
      then record buffered { profile = step_down a.profile; bad = 0 }
      else if f.at_least loss 4
      then (if leb 2 bad
          then record buffered { profile = step_down a.profile; bad = 0 }
          else record buffered { bad = bad })
      else record buffered { bad = 0 }

pub record ReceiverAdapt : Type 0 where
  pub target_ms : ℕ
  pub stable : ℕ

pub new : ReceiverAdapt
new = record { target_ms = 20; stable = 0 }

-- `ReceiverAdapt::observe`; the result is the new `target_ms`.
pub observe_jitter : ReceiverAdapt → ℕ → ℕ → ReceiverAdapt
observe_jitter a jitter_us underrun_delta =
    if ltb 0 underrun_delta
    then record { target_ms = min (sat_add u32_max a.target_ms 15) max_buffer_ms; stable = 0 }
    else if ltb a.target_ms (jitter_us / 1000 + min_buffer_ms)
    then record { target_ms = min (sat_add u32_max a.target_ms 5) max_buffer_ms; stable = 0 }
    else (let stable = sat_add 255 a.stable 1 in
        if leb 3 stable && ltb min_buffer_ms a.target_ms
        then record { target_ms = max (a.target_ms - 5) min_buffer_ms; stable = 0 }
        else record a { stable = stable })

pub next_pace : ℕ → ℕ → ℕ
next_pace scheduled_us now_us =
    if ltb 15000 (now_us - scheduled_us)
    then sat_add u64_max now_us 5000
    else sat_add u64_max scheduled_us 5000

-- The same on two `Instant`s.
pub advance_pace : ℕ → ℕ → ℕ
advance_pace scheduled now = if ltb 15000 (now - scheduled) then now + 5000 else scheduled + 5000
