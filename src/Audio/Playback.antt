-- ===== src/Audio/Playback.antt =====
-- src/audio/pcm.rs: `fill_device_i16_from_session_i16`; src/audio/playback.rs: the counters of `counted_pull` and the callback of an i16 device. The device itself is outside; what `pull` writes is an argument.
pub mod Samples
pub mod Counts
pub mod Tests
use remote_au.Common.{
  ℕ, zero, suc, ◌+◌, ◌*◌, ◌/◌, ◌%◌, ◌^◌, Bool, true, false, not, ◌||◌, ◌&&◌, ◌==◌, List, [], ◌∷◌,
  length, ltb, max, get_or, if◌then◌else◌,
}
use remote_au.Common.Int.{ℤ, pos}
use remote_au.Protocol.Codec.Nibble.{i16_from_le}

-- The sample of the session for a device's sample.
sample_for : List ℕ → ℕ → ℕ → ℕ → ℤ
sample_for session device_channels session_channels index =
    let frame = index / max device_channels 1 in
    let channel = index % max device_channels 1 in
    let source_channel = if session_channels == 1 then 0 else channel in
    let offset = (frame * session_channels + source_channel) * 2 in
    if ltb source_channel session_channels && ltb (offset + 1) (length session)
    then i16_from_le (get_or session offset 0) (get_or session (offset + 1) 0)
    else pos 0

-- The loop over the device's samples, from an index on.
fill_from : ℕ → List ℤ → List ℕ → ℕ → ℕ → List ℤ
fill_from index [] session device_channels session_channels = []
fill_from index (old ∷ out) session device_channels session_channels =
    sample_for session device_channels session_channels index
    ∷ fill_from (index + 1) out session device_channels session_channels

pub fill_device_i16_from_session_i16 : List ℤ → List ℕ → ℕ → ℕ → List ℤ
fill_device_i16_from_session_i16 device_out session device_channels session_channels =
    fill_from 0 device_out session device_channels session_channels

-- The statics; their additions wrap.
pub record Counters : Type 0 where
  pub callbacks : ℕ
  pub frames : ℕ
  pub nonzero : ℕ
  pub silent_run : ℕ
  pub max_silent_run : ℕ

abbrev pub no_counts : Counters
no_counts = record { callbacks = 0; frames = 0; nonzero = 0; silent_run = 0; max_silent_run = 0 }

abbrev pub wrapping : ℕ → ℕ → ℕ
wrapping a b = (a + b) % 2 ^ 64

-- `chunks_exact(2)` with a byte that is not 0.
pub nonzero_samples : List ℕ → ℕ
nonzero_samples [] = 0
nonzero_samples (lo ∷ []) = 0
nonzero_samples (lo ∷ hi ∷ raw) =
    let rest = nonzero_samples raw in if not (lo == 0) || not (hi == 0) then 1 + rest else rest

silent : Counters → ℕ → Counters
silent c frames =
    let run = wrapping c.silent_run frames in
    record c { silent_run = run; max_silent_run = max c.max_silent_run run }

heard : Counters → ℕ → ℕ → Counters
heard c count frames =
    if ltb 0 count
    then record c { nonzero = wrapping c.nonzero count; silent_run = 0 }
    else if ltb 0 c.nonzero
    then silent c frames
    else c

-- `counted_pull`, on the bytes that `pull` has written.
pub counted_pull : Counters → List ℕ → ℕ → Counters
counted_pull c raw frames =
    heard (record c { callbacks = wrapping c.callbacks 1; frames = wrapping c.frames frames })
      (nonzero_samples raw) frames

-- A chunk of the callback's data. A device has a channel, or `chunks_mut` panics.
pub play_chunk : Counters → List ℤ → List ℕ → ℕ → ℕ → Counters × List ℤ
play_chunk c chunk raw device_channels session_channels = (
  counted_pull c raw (length chunk / device_channels),
  fill_device_i16_from_session_i16 chunk raw device_channels session_channels,
)
