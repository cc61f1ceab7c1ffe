-- ===== src/Daemon/Control/Tests.antt =====
-- Requests to a concrete daemon.
use remote_au.Common.{
  ℕ, ◌≡◌, ◌⊎◌, refl, Bool, true, false, Option, none, some, List, [], ◌∷◌, bytes_eq, leb,
  if◌then◌else◌,
}
use remote_au.Common.Text.{codes}
use remote_au.Daemon.Control.{
  Json, ControlRequest, ControlResponse, apply_volume, apply_master, master_done, finite_gain,
  checked_gain, then_stream, apply_stream, stream_named, stream_given, stream_done, done_ok,
}
use remote_au.Daemon.Control.Line.{read_line, serve, serve-authorized}
use remote_au.Daemon.Control.Volume.{Failed, apply_volume-fails}
use remote_au.Mixer.Streams.{set_stream_gain, set_master_gain, has_stream}
use remote_au.Transport.Receiver.Engine.Tests.{hundredths, speaker}

-- The JSON of a volume request, with gains in hundredths.
pub data Toy : Type 0 where
  nothing : Toy
  number : ℕ → Toy
  text : List ℕ → Toy
  fields : Toy → Toy → Toy → Toy

abbrev pub get : Toy → List ℕ → Option Toy
get nothing key = none
get (number n) key = none
get (text s) key = none
get (fields master stream gain) key =
    if bytes_eq key (codes "master")
    then some master
    else if bytes_eq key (codes "stream")
    then some stream
    else if bytes_eq key (codes "gain")
    then some gain
    else none

abbrev pub is_null : Toy → Bool
is_null nothing = true
is_null (number n) = false
is_null (text s) = false
is_null (fields master stream gain) = false

abbrev pub as_str : Toy → Option (List ℕ)
as_str (text s) = some s
as_str nothing = none
as_str (number n) = none
as_str (fields master stream gain) = none

abbrev pub as_u64 : Toy → Option ℕ
as_u64 (number n) = some n
as_u64 nothing = none
as_u64 (text s) = none
as_u64 (fields master stream gain) = none

abbrev pub toy_json : Json hundredths
toy_json = record {
  Value = Toy;
  Double = ℕ;
  get = get;
  is_null = is_null;
  as_str = as_str;
  as_u64 = as_u64;
  as_f64 = as_u64;
  is_finite = λ x. true;
  in_range = λ x. leb x 200;
  to_f32 = λ x. x;
}

-- The master gain is taken, the stream is unknown.
abbrev args : Toy
args = fields (number 50) (text (codes "ab")) (number 70)

apply_volume-fails_example :
    Failed hundredths toy_json speaker args
      (codes "unknown stream")
      (apply_volume hundredths toy_json speaker args).0
apply_volume-fails_example =
    apply_volume-fails hundredths toy_json speaker args (codes "unknown stream") (
      unfold apply_volume apply_master master_done finite_gain checked_gain then_stream apply_stream
        stream_named stream_given stream_done set_stream_gain has_stream set_master_gain in
      refl)

-- Every line is a request with the token `k`.
abbrev request : ControlRequest hundredths toy_json
request = record { token = b'k' ∷ []; command = codes "volume"; args = args }

abbrev handler : ℕ → ControlRequest hundredths toy_json → ℕ × ControlResponse hundredths toy_json
handler s req = (7, done_ok hundredths toy_json)

abbrev parse : List ℕ → Option (ControlRequest hundredths toy_json)
parse line = some request

abbrev bytes : List ℕ
bytes = b'{' ∷ b'}' ∷ 10 ∷ []

serve-authorized_example :
    ((serve hundredths toy_json parse handler 1 (b'k' ∷ []) bytes).0 ≡ 1)
    ⊎ ((req : ControlRequest hundredths toy_json) × (parse (b'{' ∷ b'}' ∷ 10 ∷ []) ≡ some req)
        × (req.token ≡ b'k' ∷ [])
        × ((serve hundredths toy_json parse handler 1 (b'k' ∷ []) bytes).0 ≡ 7)
        × ((serve hundredths toy_json parse handler 1 (b'k' ∷ []) bytes).1
            ≡ some (done_ok hundredths toy_json)))
unfolding read_line
serve-authorized_example = serve-authorized hundredths toy_json parse handler 1 (b'k' ∷ []) bytes
