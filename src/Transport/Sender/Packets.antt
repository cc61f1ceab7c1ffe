-- ===== src/Transport/Sender/Packets.antt =====
-- The packets of the sending engine (src/transport/sender.rs), opened by the receiver's keys.
use remote_au.Common.{
  ℕ, ◌+◌, ◌^◌, ◌≤◌, ◌<◌, ◌≡◌, refl, false, some, List, length, min, ◌==◌, >>=-eq-some, u64_max,
  u16_max, sat_add, arith,
}
use remote_au.Crypto.Session.{Crates, Documented, DirectionKeys}
use remote_au.Common.Utf8.{IsText}
use remote_au.Protocol.Codec.Mono.{encode_canonical}
use remote_au.Protocol.Wire.Bodies.{AudioBody, encode_audio, decode_audio}
use remote_au.Protocol.Wire.Bodies.RoundTrip.{decode_audio-encode_audio, length-encode_audio}
use remote_au.Protocol.Wire.Header.{kind_hello, kind_audio}
use remote_au.Protocol.Wire.Names.{clip_name, encode_hello, decode_hello}
use remote_au.Protocol.Wire.Names.RoundTrip.{decode_hello-encode_hello, length-encode_hello}
use remote_au.Transport.Adapt.Probe.{codec}
use remote_au.Transport.Adapt.State.{LossFloat}
use remote_au.Transport.Packet.{seal_packet, open_packet}
use remote_au.Transport.Packet.RoundTrip.{open_packet-seal_packet}
use remote_au.Transport.Sender.{
  SenderEngine, seal, seal_with, seal_next, seal_body, hello, audio, audio_with,
}

module _ (crates : Crates) (documented : Documented crates) (f : LossFloat) where
  -- An engine with keys and an epoch, ready to seal.
  pub record Ready (keys : DirectionKeys) (epoch : List ℕ) (e : SenderEngine f) : Type 0 where
    pub has_keys : e.keys ≡ some keys
    pub has_epoch : e.epoch ≡ some epoch
    pub epoch_size : length epoch ≡ 16
    pub session_size : length e.session ≡ 16
    pub left : e.counter < u64_max

  -- A packet that opens to a body under the engine's next counter.
  abbrev pub Opens : DirectionKeys → List ℕ → SenderEngine f → ℕ → List ℕ → List ℕ → Type 0
  Opens keys epoch e kind body packet =
      open_packet crates keys.sender_to_receiver packet
      ≡ some (record {
        kind = kind;
        epoch = epoch;
        session = e.session;
        counter = e.counter + 1;
        body = body;
      })

  pub seal-Opens :
      (keys : DirectionKeys) (epoch : List ℕ) (e : SenderEngine f) (kind : ℕ) (body : List ℕ)
      → Ready keys epoch e
      → 1 ≤ kind
      → kind ≤ 4
      → length body ≤ 1138
      → (packet : List ℕ) × ((seal crates f e kind body).1 ≡ some packet)
        × Opens keys epoch e kind body packet
  unfolding seal seal_with seal_next
  seal-Opens keys epoch e kind body r k1 k4 small =
      let next : sat_add u64_max e.counter 1 ≡ e.counter + 1 = (let l = r.left in omega arith) in
      let nonzero : (e.counter + 1 == 0) ≡ false = ground arith in
      let (packet, sealed, opens) =
        >>=-eq-some
          (seal_packet crates keys.sender_to_receiver epoch e.session (e.counter + 1) kind body)
          (open_packet crates keys.sender_to_receiver)
          (open_packet-seal_packet crates documented keys.sender_to_receiver epoch e.session
            (e.counter + 1) kind body k1 k4 r.epoch_size r.session_size (omega arith)
            (let l = r.left in omega arith) small) in
      (packet, simp (r.has_epoch, next, nonzero, r.has_keys, sealed), opens)

  seal_engine :
      (keys : DirectionKeys) (epoch : List ℕ) (e : SenderEngine f) (kind : ℕ) (body : List ℕ)
      → Ready keys epoch e
      → (seal crates f e kind body).0 ≡ record e { counter = e.counter + 1 }
  unfolding seal seal_with
  seal_engine keys epoch e kind body r =
      let next : sat_add u64_max e.counter 1 ≡ e.counter + 1 = (let l = r.left in omega arith) in
      simp (r.has_epoch, next) refl

  pub hello-Opens :
      (keys : DirectionKeys) (epoch : List ℕ) (e : SenderEngine f)
      → Ready keys epoch e
      → IsText e.name
      → (packet : List ℕ) × (body : List ℕ) × ((hello crates f e).1 ≡ some packet)
        × ((hello crates f e).0 ≡ record e { counter = e.counter + 1 })
        × (decode_hello body ≡ some (clip_name e.name))
        × Opens keys epoch e kind_hello body packet
  unfolding hello seal_body
  hello-Opens keys epoch e r text =
      let (body, encoded, decoded) =
        >>=-eq-some (encode_hello e.name) decode_hello (decode_hello-encode_hello e.name text) in
      let (packet, sealed, opens) =
        seal-Opens keys epoch e kind_hello body r (omega arith) (omega arith)
          (omega (arith, length-encode_hello e.name body encoded)) in
      (
        packet,
        body,
        rw encoded sealed,
        rw encoded (seal_engine keys epoch e kind_hello body r),
        decoded,
        opens,
      )

  -- The body of the next audio packet.
  abbrev pub audio_body : SenderEngine f → List ℕ → ℕ → AudioBody
  audio_body e payload now_us = record {
    seq = sat_add u64_max e.audio_seq 1;
    send_ts_us = now_us;
    codec = codec e.adapt.profile;
    buffer_ms = min e.adapt.target_buffer_ms u16_max;
    payload = payload;
  }

  pub audio-Opens :
      (keys : DirectionKeys) (epoch : List ℕ) (e : SenderEngine f) (pcm payload : List ℕ)
      (now_us : ℕ)
      → Ready keys epoch e
      → encode_canonical (codec e.adapt.profile) pcm ≡ some payload
      → length payload ≤ 960
      → now_us < 2 ^ 64
      → (packet : List ℕ) × (body : List ℕ) × ((audio crates f e pcm now_us).1 ≡ some packet)
        × (decode_audio body ≡ some (audio_body e payload now_us))
        × Opens keys epoch e kind_audio body packet
  unfolding audio audio_with seal_body
  audio-Opens keys epoch e pcm payload now_us r payload_is small time =
      let b = audio_body e payload now_us in
      let counted : SenderEngine f = record e { audio_seq = b.seq } in
      let (body, encoded, decoded) =
        >>=-eq-some (encode_audio b) decode_audio
          (decode_audio-encode_audio b (omega arith, time, omega arith) (omega arith)) in
      let (packet, sealed, opens) =
        seal-Opens keys epoch counted kind_audio body
          (record {
            has_keys = r.has_keys;
            has_epoch = r.has_epoch;
            epoch_size = r.epoch_size;
            session_size = r.session_size;
            left = r.left;
          })
          (omega arith) (omega arith) (omega (arith, length-encode_audio b body encoded)) in
      (packet, body, rw (payload_is, encoded) sealed, decoded, opens)
