-- ===== src/Mixer/Pull.antt =====
-- src/mixer/mod.rs: `pull`, which mixes the streams for the playback callback. The sums are floating point and a parameter; `scratch` is cleared in each call and so no state, `frame_buf` is one. The nested loop over frames and channels walks the samples in order.
pub mod Kept
pub mod Tests
use remote_au.Common.{
  ℕ, zero, suc, ◌+◌, ◌*◌, ◌/◌, Bool, true, false, ◌||◌, ◌==◌, List, [], ◌∷◌, ◌++◌, length, take,
  drop, replicate, ltb, if◌then◌else◌, min, ◌-◌,
}
use remote_au.Common.Int.{ℤ}
use remote_au.Mixer.Jitter.Pull.{splice, pull as pull_buffer}
use remote_au.Mixer.Streams.{GainFloat, Stream, Mixer}
use remote_au.Protocol.Codec.Nibble.{i16_from_le, low_byte, high_byte}
use remote_au.Protocol.Format.{bytes_per_frame}

-- What the code uses of f32 for a sum: 0, `+= (sample as f32 / 32768.0) * gain`, and the i16 of the
-- sum under the master gain, clamped.
pub record MixFloat (g : GainFloat) : Type 1 where
  pub Sum : Type 0
  pub silence : Sum
  pub add : Sum → ℤ → g.Float → Sum
  pub to_i16 : Sum → g.Float → ℤ

module _ (g : GainFloat) (x : MixFloat g) where
  -- What a call leaves: the mixer, `frame_buf`, the output, and whether the callback is counted.
  pub record Pulled : Type 0 where
    pub mixer : Mixer g
    pub frame_buf : List ℕ
    pub out : List ℕ
    pub counted : Bool

  -- The first samples of a stream are added, as far as there are bytes.
  mix : List x.Sum → List ℕ → g.Float → ℕ → List x.Sum
  mix [] bytes gain n = []
  mix (s ∷ sums) bytes gain zero = s ∷ sums
  mix (s ∷ sums) [] gain (suc n) = s ∷ sums
  mix (s ∷ sums) (lo ∷ []) gain (suc n) = s ∷ sums
  mix (s ∷ sums) (lo ∷ hi ∷ bytes) gain (suc n) =
      x.add s (i16_from_le lo hi) gain ∷ mix sums bytes gain n

  -- The sums are written over the output.
  write : List x.Sum → g.Float → List ℕ → List ℕ
  write [] master out = out
  write (s ∷ sums) master [] = []
  write (s ∷ sums) master (lo ∷ []) = lo ∷ []
  write (s ∷ sums) master (lo ∷ hi ∷ out) =
      let sample = x.to_i16 s master in low_byte sample ∷ high_byte sample ∷ write sums master out

  -- The loop over the streams, with `bpf` bytes and `channels` samples to a frame.
  mix_streams :
      ℕ → ℕ → ℕ → ℕ → List (Stream g) → List ℕ → List x.Sum → List (Stream g) × List ℕ × List x.Sum
  mix_streams bpf channels frames now [] frame_buf scratch = ([], frame_buf, scratch)
  mix_streams bpf channels frames now (s ∷ streams) frame_buf scratch =
      let nbytes = frames * bpf in
      let (buffer, filled, got) = pull_buffer s.buffer (take nbytes frame_buf) frames now in
      let played = filled ++ drop nbytes frame_buf in
      let (streams', last, sums) =
        mix_streams bpf channels frames now streams played
          (if got == 0 then scratch else mix scratch played s.gain (min got frames * channels)) in
      (record s { buffer = buffer } ∷ streams', last, sums)

  -- `frame_buf.resize(nbytes, 0)`, if it is shorter.
  abbrev pub grown : List ℕ → ℕ → List ℕ
  grown frame_buf nbytes = frame_buf ++ replicate (nbytes - length frame_buf) 0

  -- The mix of `frames` frames into a cleared output.
  mixed : Mixer g → List ℕ → List ℕ → ℕ → ℕ → Pulled
  mixed m frame_buf cleared frames now =
      let bpf = bytes_per_frame m.format in
      let channels = m.format.channels in
      let (streams, last, sums) =
        mix_streams bpf channels frames now m.streams (grown frame_buf (frames * bpf))
          (replicate (frames * channels) x.silence) in
      record {
        mixer = record m { streams = streams };
        frame_buf = last;
        out = write sums m.master_gain cleared;
        counted = true;
      }

  -- `locked`: another thread holds the lock, and `try_lock` fails.
  pub pull : Mixer g → List ℕ → List ℕ → ℕ → ℕ → Bool → Pulled
  pull m frame_buf out frame_count now locked =
      let bpf = bytes_per_frame m.format in
      if bpf == 0 || (m.format.channels == 0 || (frame_count == 0 || ltb (length out) bpf))
      then record { mixer = m; frame_buf = frame_buf; out = out; counted = false }
      else (let asked = min frame_count (length out / bpf) in
          let cleared = splice out 0 (replicate (asked * bpf) 0) in
          if locked
          then record { mixer = m; frame_buf = frame_buf; out = cleared; counted = false }
          else mixed m frame_buf cleared (min asked 4096) now)
