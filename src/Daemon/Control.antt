-- ===== src/Daemon/Control.antt =====
-- src/daemon/mod.rs: the answers to control requests, `receiver_control` and `sender_control`; src/control/mod.rs: the check of a request line. JSON is another crate's: a value is known by what the code asks of it. Of the status, `role`, `callbacks`, `playback` and the float `queued_ms` are left out, and the snapshot of the sender.
pub mod Volume
pub mod Line
pub mod Tests
use remote_au.Common.{
  ℕ, ◌+◌, ◌^◌, ◌⊎◌, inl, inr, Bool, true, false, not, ◌&&◌, ◌||◌, Option, none, some, List, [], ◌∷◌,
  length, ltb, ◌==◌, bytes_eq, if◌then◌else◌,
}
use remote_au.Common.Text.{codes}
use remote_au.Mixer.Streams.{GainFloat, Stream, Mixer, set_master_gain, set_stream_gain}
use remote_au.Crypto.Session.{Crates}
use remote_au.Transport.Receiver.Engine.{ReceiverEngine}
use remote_au.Transport.Receiver.Feedback.{reports}
use remote_au.Transport.Receiver.Peer.{JitterFloat, PeerReport}

-- What the code uses of `serde_json::Value` and of the f64 in it: `get` of a field, the conversions,
-- `is_finite`, `(0.0..=2.0).contains`, and the cast to f32.
pub record Json (g : GainFloat) : Type 1 where
  pub Value : Type 0
  pub Double : Type 0
  pub get : Value → List ℕ → Option Value
  pub is_null : Value → Bool
  pub as_str : Value → Option (List ℕ)
  pub as_u64 : Value → Option ℕ
  pub as_f64 : Value → Option Double
  pub is_finite : Double → Bool
  pub in_range : Double → Bool
  pub to_f32 : Double → g.Float

-- `Result<_, String>`.
abbrev pub Outcome {ℓ} : Type ℓ → Type ℓ
Outcome A = List ℕ ⊎ A

-- `Option::filter`.
abbrev pub filtered {ℓ} : {A : Type ℓ} → (A → Bool) → Option A → Option A
filtered keep none = none
filtered keep (some x) = if keep x then some x else none

abbrev pub max_control_bytes : ℕ
max_control_bytes = 16384

module _ (g : GainFloat) (js : Json g) where
  pub record ControlRequest : Type 0 where
    pub token : List ℕ
    pub command : List ℕ
    pub args : js.Value

  checked_gain : Option js.Double → Outcome g.Float
  checked_gain none = inl (codes "gain must be finite and between 0 and 2")
  checked_gain (some gain) = inr (js.to_f32 gain)

  pub finite_gain : js.Value → Outcome g.Float
  finite_gain value =
      checked_gain (filtered (λ gain. js.is_finite gain && js.in_range gain) (js.as_f64 value))

  as_index : Option ℕ → Outcome (Option ℕ)
  as_index none = inl (codes "device index must be an integer")
  as_index (some index) = inr (some index)

  index_of : Option js.Value → Outcome (Option ℕ)
  index_of none = inl (codes "device command requires index")
  index_of (some value) = if js.is_null value then inr none else as_index (js.as_u64 value)

  -- `usize::try_from` of a u64 never fails on 64 bits.
  pub device_index : js.Value → Outcome (Option ℕ)
  device_index args = index_of (js.get args (codes "index"))

  -- A field that is there and not null.
  abbrev pub given : js.Value → List ℕ → Option js.Value
  given args key = filtered (λ value. not (js.is_null value)) (js.get args key)

  -- The mixer may have changed when an error is returned: it is returned with the result.
  master_done : Mixer g → Outcome g.Float → Mixer g × Outcome (Unit {0})
  master_done m (inl err) = (m, inl err)
  master_done m (inr gain) = (set_master_gain g m gain, inr tt)

  apply_master : Mixer g → Option js.Value → Mixer g × Outcome (Unit {0})
  apply_master m none = (m, inr tt)
  apply_master m (some value) = master_done m (finite_gain value)

  stream_done : Mixer g → List ℕ → Outcome g.Float → Mixer g × Outcome (Unit {0})
  stream_done m id (inl err) = (m, inl err)
  stream_done m id (inr gain) =
      let (m', found) = set_stream_gain g m id gain in
      if found then (m', inr tt) else (m', inl (codes "unknown stream"))

  stream_given : Mixer g → List ℕ → Option js.Value → Mixer g × Outcome (Unit {0})
  stream_given m id none = (m, inr tt)
  stream_given m id (some value) = stream_done m id (finite_gain value)

  stream_named : Mixer g → js.Value → Option (List ℕ) → Mixer g × Outcome (Unit {0})
  stream_named m args none = (m, inr tt)
  stream_named m args (some id) = stream_given m id (given args (codes "gain"))

  apply_stream : Mixer g → js.Value → Option js.Value → Mixer g × Outcome (Unit {0})
  apply_stream m args none = (m, inr tt)
  apply_stream m args (some stream) = stream_named m args (js.as_str stream)

  then_stream : js.Value → Mixer g → Outcome (Unit {0}) → Mixer g × Outcome (Unit {0})
  then_stream args m (inl err) = (m, inl err)
  then_stream args m (inr done) = apply_stream m args (js.get args (codes "stream"))

  pub apply_volume : Mixer g → js.Value → Mixer g × Outcome (Unit {0})
  apply_volume m args =
      let (m', done) = apply_master m (given args (codes "master")) in then_stream args m' done

  -- The status of a stream: the account of its peer, beside the figures of the mixer's stream.
  pub record StreamStatus : Type 0 where
    pub id : List ℕ
    pub name : List ℕ
    pub packets : ℕ
    pub lost : ℕ
    pub underruns : ℕ
    pub starvations : Option ℕ
    pub jitter_us : ℕ
    pub buffer_ms : ℕ
    pub residence_us : Option ℕ

  pub record ReceiverStatus : Type 0 where
    pub packets_received : ℕ
    pub packets_rejected : ℕ
    pub underruns : ℕ
    pub master_gain : g.Float
    pub streams : List StreamStatus

  pub data Body : Type 0 where
    empty : Body
    error : List ℕ → Body
    receiver_status : ReceiverStatus → Body
    sender_status : Body

  pub record ControlResponse : Type 0 where
    pub ok : Bool
    pub body : Body

  abbrev pub done_ok : ControlResponse
  done_ok = record { ok = true; body = empty }

  abbrev pub failed : List ℕ → ControlResponse
  failed err = record { ok = false; body = error err }

  pub find_stream : List ℕ → List (Stream g) → Option (Stream g)
  find_stream id [] = none
  find_stream id (s ∷ streams) =
      let rest = find_stream id streams in if bytes_eq s.id id then some s else rest

  pub sum_underruns : List (Stream g) → ℕ
  sum_underruns [] = 0
  sum_underruns (s ∷ streams) = s.buffer.underruns + sum_underruns streams

  underruns_of : Option (Stream g) → ℕ
  underruns_of none = 0
  underruns_of (some s) = s.buffer.underruns

  starvations_in : Option (Stream g) → Option ℕ
  starvations_in none = none
  starvations_in (some s) = some s.buffer.starvations

  residence_in : Option (Stream g) → Option ℕ
  residence_in none = none
  residence_in (some s) = some s.buffer.residence_us

  pub stream_status : {j : JitterFloat} → List (Stream g) → PeerReport j → StreamStatus
  stream_status streams report =
      let stream = find_stream report.id streams in
      record {
        id = report.id;
        name = report.name;
        packets = report.received;
        lost = report.lost;
        underruns = underruns_of stream;
        starvations = starvations_in stream;
        jitter_us = report.jitter_us;
        buffer_ms = report.buffer_ms;
        residence_us = residence_in stream;
      }

  statuses : {j : JitterFloat} → List (Stream g) → List (PeerReport j) → List StreamStatus
  statuses streams [] = []
  statuses streams (report ∷ rest) = stream_status streams report ∷ statuses streams rest

  -- The answer to a device command; the index goes to the device channel.
  device_done : Option ℕ → Outcome (Option ℕ) → Option ℕ × ControlResponse
  device_done device (inl err) = (device, failed err)
  device_done device (inr index) = (index, done_ok)

  pub set_device : Option ℕ → js.Value → Option ℕ × ControlResponse
  set_device device args = device_done device (device_index args)

  volume_done : Outcome (Unit {0}) → ControlResponse
  volume_done (inl err) = failed err
  volume_done (inr done) = done_ok

  -- The mixer, the value in the device channel, and the answer.
  pub receiver_control :
      (crates : Crates) (hex_encode : List ℕ → List ℕ) (j : JitterFloat)
      → Mixer g
      → ReceiverEngine j
      → Option ℕ
      → ControlRequest
      → Mixer g × Option ℕ × ControlResponse
  receiver_control crates hex_encode j m e device req =
      if bytes_eq req.command (codes "status")
      then (
        m,
        device,
        record {
          ok = true;
          body = receiver_status (record {
            packets_received = e.packets_received;
            packets_rejected = e.packets_rejected;
            underruns = sum_underruns m.streams;
            master_gain = m.master_gain;
            streams = statuses m.streams (reports crates hex_encode j g e);
          });
        },
      )
      else if bytes_eq req.command (codes "volume")
      then (let (m', done) = apply_volume m req.args in (m', device, volume_done done))
      else if bytes_eq req.command (codes "device")
      then (let (device', answer) = set_device device req.args in (m, device', answer))
      else (m, device, failed (codes "unknown command"))

  pub sender_control : Option ℕ → ControlRequest → Option ℕ × ControlResponse
  sender_control device req =
      if bytes_eq req.command (codes "status")
      then (device, record { ok = true; body = sender_status })
      else if bytes_eq req.command (codes "volume")
      then (device, failed (codes "volume applies to the receiver"))
      else if bytes_eq req.command (codes "device")
      then set_device device req.args
      else (device, failed (codes "unknown command"))
