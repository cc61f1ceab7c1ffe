-- ===== src/Mixer/Jitter/Pull.antt =====
-- src/mixer/jitter.rs: `pull`, which plays frames out of the buffer.
pub mod Round
pub mod Loop
use remote_au.Common.{
  ℕ, zero, suc, ◌+◌, ◌-◌, ◌*◌, ◌/◌, true, false, not, none, some, List, ◌++◌, length, take, drop,
  replicate, ltb, leb, ◌==◌, if◌then◌else◌, min, sat_add, u64_max,
}
use remote_au.Common.OrdMap.{get, contains_key, remove, has_from}
use remote_au.Mixer.Jitter.{JitterBuffer, add_u64}

-- `dst[at..at + seg.len()].copy_from_slice(seg)`.
abbrev pub splice : List ℕ → ℕ → List ℕ → List ℕ
splice dst at seg = take at dst ++ (seg ++ drop (at + length seg) dst)

-- The variables of the loop of `pull`.
pub record Pulling : Type 0 where
  pub buffer : JitterBuffer
  pub done : ℕ
  pub dst : List ℕ

-- `n` frames of the packet at `seq` have been played, or concealed.
advance : JitterBuffer → ℕ → ℕ → JitterBuffer
advance b seq n =
    if leb b.packet_frames (b.play_off + n)
    then record b {
      slots = remove seq b.slots;
      losses = if contains_key seq b.slots then b.losses else add_u64 b.losses 1;
      play_seq = some (sat_add u64_max seq 1);
      play_off = 0;
    }
    else record b { play_off = b.play_off + n }

-- Nothing is left to play from `seq` on.
starve : JitterBuffer → ℕ → JitterBuffer
starve b missing = record b {
  underruns = add_u64 b.underruns missing;
  starvations = add_u64 b.starvations 1;
  primed = false;
  starved = true;
  play_seq = none;
  play_off = 0;
}

-- One round at `seq`, with `n` frames to take from the packet's frame `off` on.
pub round : ℕ → ℕ → Pulling → ℕ → ℕ → ℕ → Pulling
unfolding advance starve
round frames now p seq off n = elim (get seq p.buffer.slots) [
  | some packet ↦
      let bpf = p.buffer.bytes_per_frame in
      let seg = take (n * bpf) (drop (off * bpf) packet.pcm) in
      let heard = record (p.buffer) { residence_us = min (now - packet.arrived) u64_max } in
      record {
        buffer = advance heard seq n;
        done = p.done + n;
        dst = splice p.dst (p.done * bpf) seg;
      }
  | none ↦
      if not (has_from seq p.buffer.slots)
      then record p { buffer = starve p.buffer (frames - p.done) }
      else record p {
        buffer = advance (record (p.buffer) { underruns = add_u64 p.buffer.underruns n }) seq n;
        done = p.done + n;
      }
]

-- `while done < frames`, on fuel. A round plays a frame, or steps to the next packet.
pull_loop : ℕ → ℕ → ℕ → Pulling → Pulling
pull_loop zero frames now p = p
pull_loop (suc fuel) frames now p = elim (ltb p.done frames) [
  | false ↦ p
  | true ↦ elim p.buffer.play_seq [
    | none ↦ p
    | some seq ↦
        let b = p.buffer in
        let off = min b.play_off b.packet_frames in
        let n = min (b.packet_frames - off) (frames - p.done) in
        elim (n == 0) [
          | true ↦ pull_loop fuel frames now (record p {
            buffer = record b { play_seq = some (sat_add u64_max seq 1); play_off = 0 };
          })
          | false ↦ pull_loop fuel frames now (round frames now p seq off n)
        ]
  ]
]

-- The loop of `pull`, from a cleared `dst` on.
play : JitterBuffer → List ℕ → ℕ → ℕ → Pulling
play b cleared frames now =
    pull_loop (2 * frames + 1) frames now
      (record { buffer = record b { started = true }; done = 0; dst = cleared })

-- The buffer afterwards, `dst`, and the frames that were filled.
pub pull : JitterBuffer → List ℕ → ℕ → ℕ → JitterBuffer × List ℕ × ℕ
pull b dst wanted now =
    let bpf = b.bytes_per_frame in
    let frames = min wanted (length dst / bpf) in
    let cleared = splice dst 0 (replicate (frames * bpf) 0) in
    if not b.primed
    then (b, cleared, frames)
    else (let p = play b cleared frames now in (p.buffer, p.dst, frames))
