-- ===== src/Mixer/Streams.antt =====
-- src/mixer/mod.rs: the streams of the mixer. The lock is held for a whole call and left out; an `Instant` is its microseconds, and the clock an argument.
pub mod Kept
pub mod Sound
pub mod Tests
use remote_au.Common.{
  ℕ, ◌-◌, Bool, true, false, not, List, [], ◌∷◌, ◌++◌, map, length, max, clamp, bytes_eq, ltb, leb,
  if◌then◌else◌,
}
use remote_au.Protocol.Format.{AudioFormat, bytes_per_frame, max_streams}
use remote_au.Mixer.Jitter.{JitterBuffer, max_slots, set_target_packets, set_target_ms, push}

-- What the code uses of f32 for a gain: the gain 1, `is_finite`, and `clamp(0.0, 2.0)`.
pub record GainFloat : Type 1 where
  pub Float : Type 0
  pub one : Float
  pub is_finite : Float → Bool
  pub clamp_gain : Float → Float

module _ (f : GainFloat) where
  pub record Stream : Type 0 where
    pub id : List ℕ
    pub name : List ℕ
    pub gain : f.Float
    pub last_seen : ℕ
    pub buffer : JitterBuffer

  pub record Mixer : Type 0 where
    pub format : AudioFormat
    pub streams : List Stream
    pub master_gain : f.Float
    pub default_target_packets : ℕ

  pub new : AudioFormat → Mixer
  new format = record {
    format = format;
    streams = [];
    master_gain = f.one;
    default_target_packets = if leb 240 (max format.frame_samples 1) then 4 else 1;
  }

  -- `streams.iter_mut().find(|s| s.id == id)`: whether there is one, and a change of it.
  unfoldable pub has_stream : List ℕ → List Stream → Bool
  has_stream id [] = false
  has_stream id (s ∷ streams) =
      let rest = has_stream id streams in if bytes_eq s.id id then true else rest

  pub update_stream : List ℕ → (Stream → Stream) → List Stream → List Stream
  update_stream id change [] = []
  update_stream id change (s ∷ streams) =
      let rest = update_stream id change streams in
      if bytes_eq s.id id then change s ∷ streams else s ∷ rest

  -- `retain`.
  pub retain : (Stream → Bool) → List Stream → List Stream
  retain keep [] = []
  retain keep (s ∷ streams) = let rest = retain keep streams in if keep s then s ∷ rest else rest

  unfoldable pub set_master_gain : Mixer → f.Float → Mixer
  set_master_gain m gain =
      if f.is_finite gain then record m { master_gain = f.clamp_gain gain } else m

  new_stream : Mixer → List ℕ → List ℕ → ℕ → Stream
  new_stream m id name now = record {
    id = id;
    name = name;
    gain = f.one;
    last_seen = now;
    buffer =
        set_target_packets
          (remote_au.Mixer.Jitter.new (max (bytes_per_frame m.format) 1)
            (max m.format.frame_samples 1))
          m.default_target_packets;
  }

  unfoldable pub ensure_stream : Mixer → List ℕ → List ℕ → ℕ → Mixer × Bool
  unfolding new_stream
  ensure_stream m id name now =
      if has_stream id m.streams
      then (
        record m {
          streams = update_stream id (λ s. record s { name = name; last_seen = now }) m.streams;
        },
        true,
      )
      else if leb max_streams (length m.streams)
      then (m, false)
      else (record m { streams = m.streams ++ (new_stream m id name now ∷ []) }, true)

  pub remove_stream : Mixer → List ℕ → Mixer
  remove_stream m id = record m { streams = retain (λ s. not (bytes_eq s.id id)) m.streams }

  pub touch : Mixer → List ℕ → ℕ → Mixer
  touch m id now = record m {
    streams = update_stream id (λ s. record s { last_seen = now }) m.streams;
  }

  pub stream_ids : Mixer → List (List ℕ)
  stream_ids m = map (λ s. s.id) m.streams

  unfoldable pub set_stream_gain : Mixer → List ℕ → f.Float → Mixer × Bool
  set_stream_gain m id gain =
      if f.is_finite gain
      then (
        record m {
          streams = update_stream id (λ s. record s { gain = f.clamp_gain gain }) m.streams;
        },
        has_stream id m.streams,
      )
      else (m, false)

  pub set_stream_target_ms : Mixer → List ℕ → ℕ → Mixer × Bool
  set_stream_target_ms m id ms = (
    record m {
      streams = update_stream id (λ s. record s { buffer = set_target_ms s.buffer ms }) m.streams;
    },
    has_stream id m.streams,
  )

  -- `Mixer::set_target_packets`.
  pub set_all_target_packets : Mixer → ℕ → Mixer
  set_all_target_packets m packets = record m {
    default_target_packets = clamp packets 1 max_slots;
    streams =
        map {A = Stream} {B = Stream}
          (λ s. record s { buffer = set_target_packets s.buffer packets }) m.streams;
  }

  -- The answer is the buffer's, or `false` without a stream.
  push_answer : List ℕ → ℕ → List ℕ → ℕ → List Stream → Bool
  push_answer id seq pcm now [] = false
  push_answer id seq pcm now (s ∷ streams) =
      let rest = push_answer id seq pcm now streams in
      if bytes_eq s.id id then (push s.buffer seq pcm now).1 else rest

  pub push_packet : Mixer → List ℕ → ℕ → List ℕ → ℕ → Mixer × Bool
  push_packet m id seq pcm now = (
    record m {
      streams =
          update_stream id
            (λ s. record s { last_seen = now; buffer = (push s.buffer seq pcm now).0 }) m.streams;
    },
    push_answer id seq pcm now m.streams,
  )

  -- With the identifiers that are removed.
  pub expire_idle : Mixer → ℕ → ℕ → Mixer × List (List ℕ)
  expire_idle m max_idle now = (
    record m { streams = retain (λ s. ltb (now - s.last_seen) max_idle) m.streams },
    map (λ s. s.id) (retain (λ s. not (ltb (now - s.last_seen) max_idle)) m.streams),
  )
