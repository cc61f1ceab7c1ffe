-- ===== src/Protocol/Format.antt =====
-- src/protocol/format.rs: the wire's constants, the audio format and its checks, the PCM splitter.
pub mod Laws
pub mod Tests
use remote_au.Common.{
  ℕ, zero, suc, ◌-◌, ◌*◌, ◌%◌, Bool, ◌&&◌, ◌||◌, not, List, [], ◌∷◌, length, take, drop, leb, ◌==◌,
  if◌then◌else◌,
}

abbrev pub wire_rate : ℕ
wire_rate = 48000

abbrev pub wire_channels : ℕ
wire_channels = 2

abbrev pub wire_frame_samples : ℕ
wire_frame_samples = 240

abbrev pub max_datagram : ℕ
max_datagram = 1200

abbrev pub max_pcm_chunk : ℕ
max_pcm_chunk = 960

abbrev pub max_streams : ℕ
max_streams = 8

pub record AudioFormat : Type 0 where
  pub sample_rate : ℕ
  pub channels : ℕ
  pub frame_samples : ℕ

pub canonical : AudioFormat
canonical = record {
  sample_rate = wire_rate;
  channels = wire_channels;
  frame_samples = wire_frame_samples;
}

unfoldable pub bytes_per_frame : AudioFormat → ℕ
bytes_per_frame f = f.channels * 2

pub expected_payload_bytes : AudioFormat → ℕ
unfolding bytes_per_frame
expected_payload_bytes f = f.frame_samples * bytes_per_frame f

pub data ProtocolError : Type 0 where
  invalid_sample_rate invalid_channels invalid_frame_samples invalid_payload : ProtocolError

-- `Result<(), E>`.
pub data Checked (E : Type 0) : Type 0 where
  ok : Checked E
  err : E → Checked E

-- `(lo..=hi).contains(&x)`.
abbrev pub contains : ℕ → ℕ → ℕ → Bool
contains lo hi x = leb lo x && leb x hi

pub validate : AudioFormat → Checked ProtocolError
validate f =
    if not (contains 8000 192000 f.sample_rate)
    then err invalid_sample_rate
    else if not (contains 1 8 f.channels)
    then err invalid_channels
    else if not (contains 1 4096 f.frame_samples)
    then err invalid_frame_samples
    else ok

-- The error's text is its three numbers.
unfoldable pub require_wire : AudioFormat → Checked AudioFormat
require_wire f =
    if not (f.sample_rate == wire_rate)
      || (not (f.channels == wire_channels) || not (f.frame_samples == wire_frame_samples))
    then err f
    else ok

-- `slice.chunks(960)`: on fuel, since a round takes up to 960 bytes.
chunks : ℕ → List ℕ → List (List ℕ)
chunks zero xs = []
chunks (suc fuel) [] = []
chunks (suc fuel) (x ∷ xs) = take max_pcm_chunk (x ∷ xs) ∷ chunks fuel (drop max_pcm_chunk (x ∷ xs))

-- The fuel is the byte count, and each round takes a byte at least.
pub split_pcm : List ℕ → List (List ℕ)
unfolding chunks
split_pcm pcm =
    let usable = length pcm - length pcm % 4 in
    if usable == 0 then [] else chunks usable (take usable pcm)
