-- ===== src/Transport/Exchange.antt =====
-- A sender and a receiver of one group: src/transport/sender.rs against src/transport/receiver.rs.
pub mod Feedback
pub mod Tests
use remote_au.Common.{
  ℕ, ◌+◌, ◌%◌, ◌^◌, ◌≤◌, ◌<◌, ◌≡◌, ◌∙◌, refl, sym, ap, true, Option, none, some, List, [], ◌∷◌,
  length, sat_add, u64_max, arith, bytes_eq_refl,
}
use mathlib.Core.Path.{subst}
use remote_au.Common.Utf8.{IsText}
use remote_au.Crypto.Replay.{commit}
use remote_au.Crypto.Replay.Taken.{new_takes_next}
use remote_au.Crypto.Session.{Crates, Documented, DirectionKeys, derive}
use remote_au.Discovery.Sources.{SocketAddr}
use remote_au.Mixer.Streams.{GainFloat, Mixer, ensure_stream, touch, push_packet}
use remote_au.Protocol.Codec.Mono.{encode_canonical, decode_canonical}
use remote_au.Protocol.Codec.Mono.Sizes.{payload_bytes, decode_canonical-encode_canonical}
use remote_au.Protocol.Format.{max_pcm_chunk}
use remote_au.Protocol.Wire.Header.{kind_hello, kind_audio}
use remote_au.Protocol.Wire.Names.{clip_name}
use remote_au.Transport.Adapt.Probe.{Profile, adpcm48, adpcm24, codec}
use remote_au.Transport.Adapt.State.{LossFloat}
use remote_au.Transport.Packet.{Opened}
use remote_au.Transport.Receiver.Engine.{ReceiverEngine, State, find_peer, handle_datagram}
use remote_au.Transport.Receiver.Engine.Delivery.{
  HasRoom, admitted, handle_datagram-admitted, delivered, handle_datagram-delivered,
}
use remote_au.Transport.Receiver.Engine.PeerList.{find_peer-append_new}
use remote_au.Transport.Receiver.Peer.{JitterFloat, Peer, new}
use remote_au.Transport.Sender.{SenderEngine, hello, audio}
use remote_au.Transport.Sender.Packets.{Ready, hello-Opens, audio-Opens, audio_body}

codec-le : (p : Profile) → codec p ≤ 2
codec-le Profile.pcm = omega arith
codec-le adpcm48 = omega arith
codec-le adpcm24 = omega arith

payload_small :
    (p : Profile) (payload : List ℕ)
    → length payload ≡ payload_bytes (codec p)
    → length payload ≤ 960
payload_small Profile.pcm payload h = omega arith
payload_small adpcm48 payload h = omega arith
payload_small adpcm24 payload h = omega arith

module _ (crates : Crates) (documented : Documented crates) (hex_encode : List ℕ → List ℕ)
    (f : LossFloat) (j : JitterFloat) (g : GainFloat) (s : SenderEngine f) (e : ReceiverEngine j)
    (m : Mixer g) (src : SocketAddr) (clock : ℕ) (fresh : List ℕ)
    (ready : Ready crates documented f (derive crates e.token e.epoch s.session) e.epoch s)
    (text : IsText s.name)
    (room : HasRoom hex_encode j g e m s.session (clip_name s.name) clock) where
  opened_hello : List ℕ → Opened
  opened_hello body = record {
    kind = kind_hello;
    epoch = e.epoch;
    session = s.session;
    counter = s.counter + 1;
    body = body;
  }

  hello_state :
      (packet : List ℕ) × (body : List ℕ) × ((hello crates f s).1 ≡ some packet)
      × ((hello crates f s).0 ≡ record s { counter = s.counter + 1 })
      × (handle_datagram crates hex_encode j g e m packet src clock fresh
          ≡ admitted crates hex_encode j g e m src clock fresh packet
              (opened_hello body)
              (derive crates e.token e.epoch s.session)
              (clip_name s.name))
  unfolding opened_hello
  hello_state =
      let (packet, body, sent, after, named, opens) =
        hello-Opens crates documented f (derive crates e.token e.epoch s.session) e.epoch s ready
          text in
      (
        packet,
        body,
        sent,
        after,
        handle_datagram-admitted crates hex_encode j g e m src clock fresh packet
            (opened_hello body) (clip_name s.name) opens refl refl (omega arith) named room,
      )

  -- A sender bound to the receiver's epoch, with a text for a name and a session that the receiver does not know and has room for, has a hello. On it the receiver knows an active peer of the session, under the sender's keys and clipped name, gives it a stream of the mixer, and counts the packet as received and not as rejected.
  pub hello_admitted :
      (packet : List ℕ) × ((hello crates f s).1 ≡ some packet)
      × let out = handle_datagram crates hex_encode j g e m packet src clock fresh in
        ((p : Peer j) × (find_peer j s.session out.0.peers ≡ some p)
          × (p.name ≡ clip_name s.name)
          × (p.active ≡ true)
          × (p.keys ≡ derive crates e.token e.epoch s.session))
        × (out.1 ≡ (ensure_stream g m (hex_encode s.session) (clip_name s.name) clock).0)
        × (out.0.packets_received ≡ (e.packets_received + 1) % 2 ^ 64)
        × (out.0.packets_rejected ≡ e.packets_rejected)
  unfolding new opened_hello
  hello_admitted =
      let (packet, body, sent, after, q) = hello_state in
      (
        packet,
        sent,
        rw q (
          (
            _,
            find_peer-append_new j s.session _ e.peers room.unknown (bytes_eq_refl s.session),
            refl,
            refl,
            refl,
          ),
          refl,
          refl,
          refl,
        ),
      )

  -- The state behind the hello, and the sender's state then.
  abbrev greeted : List ℕ → State j g
  greeted packet = handle_datagram crates hex_encode j g e m packet src clock fresh

  -- A sender bound to the receiver's epoch, with a text for a name and a session that the receiver does not know and has room for, says hello, and its first audio packet after it, 960 bytes sent before counter and clock reach 2^64, is delivered: the receiver counts it as received, and the mixer is given the sender's next sequence number and what its codec makes of the 960 bytes, encoded and decoded, for the session's stream.
  pub first_audio_delivered :
      (pcm : List ℕ) (now_us clock' : ℕ) (fresh' : List ℕ)
      → length pcm ≡ max_pcm_chunk
      → now_us < 2 ^ 64
      → s.counter + 1 < u64_max
      → (packet : List ℕ) × (packet' : List ℕ) × (payload : List ℕ) × (played : List ℕ) × ((hello
            crates f s).1
          ≡ some packet)
        × ((audio crates f (hello crates f s).0 pcm now_us).1 ≡ some packet')
        × (encode_canonical (codec s.adapt.profile) pcm ≡ some payload)
        × (decode_canonical (codec s.adapt.profile) payload ≡ some played)
        × let out =
            handle_datagram crates hex_encode j g
              (greeted packet).0
              (greeted packet).1
              packet'
              src
              clock'
              fresh' in
          let id = hex_encode s.session in
          (out.1
            ≡ (push_packet g
                (touch g (ensure_stream g m id (clip_name s.name) clock).0 id clock')
                id
                (sat_add u64_max s.audio_seq 1)
                played
                clock').0)
          × (out.0.packets_received ≡ (e.packets_received + 2) % 2 ^ 64)
          × (out.0.packets_rejected ≡ e.packets_rejected)
  unfolding new opened_hello
  first_audio_delivered pcm now_us clock' fresh' full time more =
      let (packet, body, sent, after, q) = hello_state in
      let keys = derive crates e.token e.epoch s.session in
      let (payload, encoded, size, (played, decoded, _)) =
        decode_canonical-encode_canonical (codec s.adapt.profile) pcm (codec-le s.adapt.profile)
          full in
      let (packet', body', sent', audio_is, opens) =
        audio-Opens crates documented f keys e.epoch (record s { counter = s.counter + 1 }) pcm
          payload now_us
          (record {
            has_keys = ready.has_keys;
            has_epoch = ready.has_epoch;
            epoch_size = ready.epoch_size;
            session_size = ready.session_size;
            left = more;
          })
          encoded (payload_small s.adapt.profile payload size) time in
      let d =
        handle_datagram-delivered crates hex_encode j g
          (admitted crates hex_encode j g e m src clock fresh packet (opened_hello body) keys
            (clip_name s.name)).0
          (admitted crates hex_encode j g e m src clock fresh packet (opened_hello body) keys
            (clip_name s.name)).1
          src clock' fresh' packet'
          (record {
            kind = kind_audio;
            epoch = e.epoch;
            session = s.session;
            counter = s.counter + 1 + 1;
            body = body';
          })
          _ (audio_body crates documented f (record s { counter = s.counter + 1 }) payload now_us)
          played (find_peer-append_new j s.session _ e.peers room.unknown (bytes_eq_refl s.session))
          opens refl refl (omega arith) refl (new_takes_next 2048 (s.counter + 1)) audio_is
          decoded in
      (
        packet,
        packet',
        payload,
        played,
        sent,
        rw after sent',
        encoded,
        decoded,
        rw q (rw d (refl, omega arith, refl)),
      )
