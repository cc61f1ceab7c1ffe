-- ===== src/Transport/Receiver/Engine/Delivery.antt =====
-- A hello that is admitted, and an audio packet that reaches the mixer.
use remote_au.Common.{
  ℕ, ◌<◌, ◌≡◌, ◌∙◌, refl, sym, ap, true, false, ◌==◌, none, some, List, [], ◌∷◌, ◌++◌, leb, length,
  bytes_eq, bytes_eq_refl, arith,
}
use remote_au.Crypto.Replay.{commit}
use remote_au.Crypto.Replay.Taken.{new_takes}
use remote_au.Crypto.Session.{Crates, DirectionKeys, derive}
use remote_au.Discovery.Sources.{SocketAddr}
use remote_au.Mixer.Streams.{GainFloat, Mixer, ensure_stream, touch, push_packet}
use remote_au.Protocol.Codec.Mono.{decode_canonical}
use remote_au.Protocol.Format.{max_streams}
use remote_au.Protocol.Wire.Bodies.{AudioBody, decode_audio}
use remote_au.Protocol.Wire.Header.{kind_hello, kind_audio}
use remote_au.Protocol.Wire.Names.{decode_hello}
use remote_au.Transport.Packet.{Opened, open_packet}
use remote_au.Transport.Packet.View.{open_packet-parses}
use remote_au.Transport.Receiver.Engine.{
  ReceiverEngine, State, received, put, find_peer, peer_count, insert_peer, admit, accept,
  known_opened, new_opened, by_peer, by_view, by_kind, apply_audio, apply_audio_body,
  apply_audio_with, handle_datagram,
}
use remote_au.Transport.Receiver.Peer.{JitterFloat, Peer, new, audio_arrived}

module _ (hex_encode : List ℕ → List ℕ) (j : JitterFloat) (g : GainFloat) (e : ReceiverEngine j)
    (m : Mixer g) where
  -- Room for an unknown session and its stream.
  pub record HasRoom (session name : List ℕ) (clock : ℕ) : Type 0 where
    pub unknown : find_peer j session e.peers ≡ none
    pub places : peer_count j e < max_streams
    pub history : length e.peers < e.history_cap
    pub stream : (ensure_stream g m (hex_encode session) name clock).1 ≡ true

module _ (crates : Crates) (hex_encode : List ℕ → List ℕ) (j : JitterFloat) (g : GainFloat)
    (e : ReceiverEngine j) (m : Mixer g) (src : SocketAddr) (clock : ℕ) (fresh packet : List ℕ)
    (opened : Opened) where
  -- The state behind an admitted hello.
  abbrev pub admitted : DirectionKeys → List ℕ → State j g
  admitted keys name = (
    received j (record e {
      peers =
          e.peers
          ++ ((
            opened.session,
            record (new j keys src name clock) {
              replay = (commit (remote_au.Crypto.Replay.new 2048) opened.counter).0;
            },
          )
              ∷ []);
    }),
    (ensure_stream g m (hex_encode opened.session) name clock).0,
  )

  pub handle_datagram-admitted :
      (name : List ℕ)
      → let keys = derive crates e.token e.epoch opened.session in
        open_packet crates keys.sender_to_receiver packet ≡ some opened
        → opened.kind ≡ kind_hello
        → opened.epoch ≡ e.epoch
        → 0 < opened.counter
        → decode_hello opened.body ≡ some name
        → HasRoom hex_encode j g e m opened.session name clock
        → handle_datagram crates hex_encode j g e m packet src clock fresh ≡ admitted keys name
  unfolding handle_datagram by_view by_peer new_opened admit insert_peer new
  handle_datagram-admitted name opens hello here pos named room =
      let keys = derive crates e.token e.epoch opened.session in
      let (view, parsed, v) =
        open_packet-parses crates keys.sender_to_receiver packet opened opens in
      let same : bytes_eq view.epoch e.epoch ≡ true =
        ap (λ x. bytes_eq x e.epoch) (sym v.epoch ∙ here) ∙ bytes_eq_refl e.epoch in
      let counts : (view.counter == 0) ≡ false = (let c = v.counter in ground arith) in
      let kind : (view.kind == kind_hello) ≡ true = (let k = v.kind in ground arith) in
      let session : view.session ≡ opened.session = sym v.session in
      let places : leb max_streams (peer_count j e) ≡ false =
        (let p = room.places in ground arith) in
      let history : leb e.history_cap (length e.peers) ≡ false =
        (let h = room.history in ground arith) in
      let took = new_takes 2048 opened.counter pos in
      simp
        (
          parsed, same, counts, session, room.unknown, kind, places, opens, named, history,
          room.stream, took,
        )
        refl

  -- The state behind an audio packet that is delivered.
  abbrev pub delivered : Peer j → AudioBody → List ℕ → State j g
  delivered p audio pcm =
      let moved : Peer j = record p { replay = (commit p.replay opened.counter).0; addr = src } in
      (
        received j (
            put j (put j e opened.session moved) opened.session
              (audio_arrived j moved audio clock)),
        (push_packet g (touch g m (hex_encode opened.session) clock) (hex_encode opened.session)
            audio.seq pcm clock).0,
      )

  pub handle_datagram-delivered :
      (p : Peer j) (audio : AudioBody) (pcm : List ℕ)
      → find_peer j opened.session e.peers ≡ some p
      → open_packet crates p.keys.sender_to_receiver packet ≡ some opened
      → opened.kind ≡ kind_audio
      → opened.epoch ≡ e.epoch
      → 0 < opened.counter
      → p.active ≡ true
      → (commit p.replay opened.counter).1 ≡ true
      → decode_audio opened.body ≡ some audio
      → decode_canonical audio.codec audio.payload ≡ some pcm
      → handle_datagram crates hex_encode j g e m packet src clock fresh ≡ delivered p audio pcm
  unfolding handle_datagram by_view by_peer known_opened accept by_kind apply_audio apply_audio_body
      apply_audio_with
  handle_datagram-delivered p audio pcm found opens kind here pos active took decoded got =
      let (view, parsed, v) =
        open_packet-parses crates p.keys.sender_to_receiver packet opened opens in
      let same : bytes_eq view.epoch e.epoch ≡ true =
        ap (λ x. bytes_eq x e.epoch) (sym v.epoch ∙ here) ∙ bytes_eq_refl e.epoch in
      let counts : (view.counter == 0) ≡ false = (let c = v.counter in ground arith) in
      let session : view.session ≡ opened.session = sym v.session in
      simp (parsed, same, counts, session, found, opens, took, kind, active, decoded, got) refl
