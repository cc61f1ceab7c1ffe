-- ===== src/Mixer/Jitter.antt =====
-- src/mixer/jitter.rs: the jitter buffer. Times are microseconds, read once per call (`now`). The
-- counters wrap as a u64 does.
pub mod Pull
pub mod Valid
pub mod PushValid
pub mod Tests
use remote_au.Common.{
  ℕ, zero, suc, ◌+◌, ◌-◌, ◌*◌, ◌/◌, ◌%◌, ◌^◌, Bool, true, false, not, ◌||◌, ◌&&◌, Option, none,
  some, List, [], ◌∷◌, ◌++◌, length, take, drop, ltb, leb, ◌==◌, if◌then◌else◌, max, min, clamp,
  sat_add, u64_max,
}
use remote_au.Common.OrdMap.{
  OrdMap, get, contains_key, insert, remove, first_key, last_key, retain_from, has_from,
}

abbrev pub max_slots : ℕ
max_slots = 32

pub record Packet : Type 0 where
  pub pcm : List ℕ
  pub arrived : ℕ

pub record JitterBuffer : Type 0 where
  pub bytes_per_frame : ℕ
  pub packet_frames : ℕ
  pub packet_bytes : ℕ
  pub target_packets : ℕ
  pub slots : OrdMap Packet
  pub primed : Bool
  pub starved : Bool
  pub started : Bool
  pub play_seq : Option ℕ
  pub play_off : ℕ
  pub underruns : ℕ
  pub starvations : ℕ
  pub losses : ℕ
  pub discarded : ℕ
  pub arrived : ℕ
  pub residence_us : ℕ

abbrev add_u64 : ℕ → ℕ → ℕ
add_u64 a b = (a + b) % 2 ^ 64

unfoldable pub new : ℕ → ℕ → JitterBuffer
new bytes_per_frame packet_frames =
    let bpf = max bytes_per_frame 1 in
    let frames = max packet_frames 1 in
    record {
      bytes_per_frame = bpf;
      packet_frames = frames;
      packet_bytes = bpf * frames;
      target_packets = 4;
      slots = [];
      primed = false;
      starved = false;
      started = false;
      play_seq = none;
      play_off = 0;
      underruns = 0;
      starvations = 0;
      losses = 0;
      discarded = 0;
      arrived = 0;
      residence_us = 0;
    }

pub target_ms : JitterBuffer → ℕ
target_ms b = b.target_packets * 5

pub buffered_packets : JitterBuffer → ℕ
buffered_packets b = length b.slots

-- The position to play from: `play_seq`, else the first key, else the last.
abbrev play_or : Option ℕ → Option ℕ → ℕ → ℕ
play_or (some play) first last = play
play_or none (some first) last = first
play_or none none last = last

-- The product of two `usize` wraps.
pub queued_frames : JitterBuffer → ℕ
queued_frames b = elim (last_key b.slots) [
  | none ↦ 0
  | some last ↦
      let first = play_or b.play_seq (first_key b.slots) last in
      sat_add u64_max (last - first) 1 * b.packet_frames % 2 ^ 64 - b.play_off
]

trim_to : JitterBuffer → ℕ → ℕ → JitterBuffer
trim_to b last play =
    if ltb (b.target_packets + 2) (last - play)
    then (let new_play = last - (b.target_packets - 1) in
        let kept = retain_from new_play b.slots in
        record b {
          slots = kept;
          discarded = add_u64 b.discarded (length b.slots - length kept);
          play_seq = some new_play;
          play_off = 0;
        })
    else b

pub trim_latency : JitterBuffer → JitterBuffer
unfolding trim_to
trim_latency b = elim (last_key b.slots) [
  | none ↦ b
  | some last ↦ elim b.play_seq [ none ↦ b | some play ↦ trim_to b last play ]
]

pub set_target_packets : JitterBuffer → ℕ → JitterBuffer
set_target_packets b packets =
    let target = clamp packets 1 max_slots in
    if target == b.target_packets
    then b
    else (let unprimed =
          ltb b.target_packets target
          && (b.primed && ltb (queued_frames b) (target * b.packet_frames)) in
        trim_latency
          (record b { primed = if unprimed then false else b.primed; target_packets = target }))

pub set_target_ms : JitterBuffer → ℕ → JitterBuffer
set_target_ms b ms = set_target_packets b (clamp ((clamp ms 20 150 + 4) / 5) 4 30)

-- The start of `push`: a starved buffer begins anew.
restart : JitterBuffer → JitterBuffer
restart b =
    if b.starved
    then record b {
      slots = [];
      play_seq = none;
      play_off = 0;
      primed = false;
      starved = false;
      started = false;
    }
    else b

-- `play_seq.is_some_and(|play| play <= key)`.
abbrev plays_by : Option ℕ → ℕ → Bool
plays_by none key = false
plays_by (some play) key = leb play key

-- `while self.slots.len() > MAX_SLOTS`, on fuel: a round removes a packet.
evict : ℕ → JitterBuffer → JitterBuffer
evict zero b = b
evict (suc fuel) b = elim (ltb max_slots (length b.slots)) [
  | false ↦ b
  | true ↦ elim (first_key b.slots) [
    | none ↦ b
    | some first ↦
        let rest = remove first b.slots in
        let behind = plays_by b.play_seq first in
        evict fuel (record b {
          slots = rest;
          discarded = add_u64 b.discarded 1;
          play_seq = if behind then first_key rest else b.play_seq;
          play_off = if behind then 0 else b.play_off;
        })
  ]
]

abbrev is_none : Option ℕ → Bool
is_none none = true
is_none (some x) = false

-- The end of `push`: where to play from, whether enough is queued, and the latency cap.
settle : JitterBuffer → JitterBuffer
settle b =
    let play = if is_none b.play_seq || not b.started then first_key b.slots else b.play_seq in
    let c = record b { play_seq = play } in
    let enough = not c.primed && leb (c.target_packets * c.packet_frames) (queued_frames c) in
    trim_latency (record c { primed = if enough then true else c.primed })

-- The middle of `push`: a packet that is not late is stored, once.
pub store : JitterBuffer → ℕ → List ℕ → ℕ → JitterBuffer × Bool
store b seq pcm now =
    if contains_key seq b.slots
    then (b, false)
    else (let stored = record b {
      slots = insert seq (record { pcm = pcm; arrived = now }) b.slots;
      arrived = add_u64 b.arrived 1;
    } in
        (settle (evict (length stored.slots) stored), true))

accept : JitterBuffer → ℕ → List ℕ → ℕ → JitterBuffer × Bool
accept b seq pcm now = elim b.play_seq [
  | none ↦ store b seq pcm now
  | some play ↦
      if ltb seq play && b.started
      then (record b { discarded = add_u64 b.discarded 1 }, false)
      else if ltb (sat_add u64_max play (max_slots * 2)) seq
      then store (record b { slots = []; play_seq = none; play_off = 0; primed = false }) seq pcm
          now
      else store b seq pcm now
]

pub push : JitterBuffer → ℕ → List ℕ → ℕ → JitterBuffer × Bool
unfolding accept store
push b seq pcm now =
    if seq == 0 || not (length pcm == b.packet_bytes)
    then (b, false)
    else accept (restart b) seq pcm now
