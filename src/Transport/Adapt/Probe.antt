-- ===== src/Transport/Adapt/Probe.antt =====
-- src/transport/adapt.rs: the probe plan and the highest sustainable step.
pub mod Laws
pub mod Carried
pub mod Sustained
use remote_au.Common.{
  ℕ, zero, suc, ◌+◌, ◌-◌, ◌*◌, ◌/◌, ◌%◌, ◌^◌, Bool, true, false, ◌||◌, ◌&&◌, Option, none, some,
  List, [], ◌∷◌, ◌++◌, map, min, max, length, ltb, leb, ◌==◌, if◌then◌else◌,
}
use remote_au.Protocol.Codec.Names.{codec_pcm, codec_adpcm48, codec_adpcm24}

abbrev pub max_probe_bytes : ℕ
max_probe_bytes = 128 * 1024

abbrev pub probe_steps_bps : List ℕ
probe_steps_bps = 500000 ∷ 1000000 ∷ 2000000 ∷ 4000000 ∷ 8000000 ∷ []

abbrev pub probe_payload_bytes : ℕ
probe_payload_bytes = 800

abbrev pub probe_wire_size : ℕ
probe_wire_size = 46 + 16 + 13 + probe_payload_bytes

pub data Profile : Type 0 where
  pcm adpcm48 adpcm24 : Profile

abbrev pub codec : Profile → ℕ
codec pcm = codec_pcm
codec adpcm48 = codec_adpcm48
codec adpcm24 = codec_adpcm24

abbrev pub default_buffer_ms : Profile → ℕ
default_buffer_ms pcm = 20
default_buffer_ms adpcm48 = 40
default_buffer_ms adpcm24 = 80

pub record ProbePacketSpec : Type 0 where
  pub step : ℕ
  pub rate_bps : ℕ
  pub payload : ℕ
  pub datagram_len : ℕ
  pub delay_after : ℕ

-- The variables of `plan_probe`; `full` is its early return.
pub record Planning : Type 0 where
  pub plan : List ProbePacketSpec
  pub used : ℕ
  pub full : Bool

-- Packet `i` of a step, and the microseconds after it.
spec_of : ℕ → ℕ → ProbePacketSpec
spec_of step rate = record {
  step = step;
  rate_bps = rate;
  payload = 800;
  datagram_len = 46 + 16 + (13 + 800);
  delay_after = max (875 * 8 * 1000000 / max rate 1) 1;
}

-- `while packets < 20`, with `left` packets to go.
plan_packets : ℕ → ℕ → ℕ → ℕ → Planning → Planning
plan_packets zero max_bytes step rate p = p
plan_packets (suc left) max_bytes step rate p =
    let next =
      plan_packets left max_bytes step rate
        (record p { plan = p.plan ++ (spec_of step rate ∷ []); used = p.used + 875 }) in
    if ltb max_bytes (p.used + 875) then record p { full = true } else next

-- The loop over the rates, from `step` on.
plan_steps : ℕ → ℕ → List ℕ → Planning → Planning
plan_steps max_bytes step [] p = p
plan_steps max_bytes step (rate ∷ rates) p =
    let next = plan_steps max_bytes (step + 1) rates (plan_packets 20 max_bytes step rate p) in
    if p.full then p else next

pub plan_probe : ℕ → List ProbePacketSpec
plan_probe max_bytes =
    (plan_steps (min max_bytes max_probe_bytes) 0 probe_steps_bps
      (record { plan = []; used = 0; full = false })).plan

-- u64 arithmetic on a u32 does not wrap here.
pub probe_wire_bytes : ℕ → ℕ
probe_wire_bytes payload = if payload == 0 then 0 else (payload + 800 - 1) / 800 * probe_wire_size

pub effective_goodput_bps : ℕ → ℕ → ℕ
effective_goodput_bps wire_bytes duration_us =
    if duration_us == 0 || wire_bytes == 0
    then 0
    else wire_bytes * 8 * 1000000 % 2 ^ 64 / duration_us

-- One step of a probe: the tuple of `highest_sustainable_step_timed`.
pub record TimedStep : Type 0 where
  pub rate : ℕ
  pub sent : ℕ
  pub recv : ℕ
  pub send_us : ℕ
  pub recv_us : ℕ

-- The body of the loop up to the cap: what one step sustains.
pub capped : TimedStep → ℕ
capped s =
    if ltb 0 s.send_us && ltb 0 s.recv_us
    then min (min s.rate (effective_goodput_bps (probe_wire_bytes s.sent) s.send_us))
        (effective_goodput_bps (probe_wire_bytes s.recv) s.recv_us)
    else s.rate

-- One round: the best so far, after a step.
better : Option ℕ → TimedStep → Option ℕ
better best s =
    if s.sent == 0
    then best
    else if ltb (s.recv * 100) (s.sent * 90)
    then best
    else if capped s == 0
    then best
    else (let rate = min (capped s) 8000000 in
        elim best [ none ↦ some rate | some b ↦ some (max b rate) ])

highest_from : Option ℕ → List TimedStep → Option ℕ
highest_from best [] = best
highest_from best (s ∷ steps) = highest_from (better best s) steps

pub highest_sustainable_step_timed : List TimedStep → Option ℕ
highest_sustainable_step_timed = highest_from none

untimed : ℕ × ℕ × ℕ → TimedStep
untimed (rate, sent, recv) = record {
  rate = rate;
  sent = sent;
  recv = recv;
  send_us = 0;
  recv_us = 0;
}

pub highest_sustainable_step : List (ℕ × ℕ × ℕ) → Option ℕ
highest_sustainable_step steps = highest_sustainable_step_timed (map untimed steps)

abbrev pub profile_for_rate : ℕ → Profile
profile_for_rate rate =
    if leb 2000000 rate then pcm else if leb 1000000 rate then adpcm48 else adpcm24

abbrev pub profile_for_floor : Option ℕ → Profile
profile_for_floor none = adpcm24
profile_for_floor (some rate) = profile_for_rate rate
