-- ===== src/Transport/Receiver/Engine.antt =====
-- src/transport/receiver.rs: the receiving engine, which opens datagrams, admits peers, refuses replays
-- and reports back. The mixer is a state beside the engine, the random epoch of a rotation and the
-- clock are arguments, and the peers are a list in the order in which they came, new ones at the end.
pub mod PeerList
pub mod Moves
pub mod Paths
pub mod Handler
pub mod Changed
pub mod Spent
pub mod Accepted
pub mod Delivery
pub mod Limit
pub mod Tests
use remote_au.Common.{
  ℕ, ◌+◌, ◌%◌, ◌^◌, Bool, true, false, ◌||◌, ◌&&◌, Option, none, some, List, [], ◌∷◌, ◌++◌, map,
  length, ltb, leb, ◌==◌, not, if◌then◌else◌, sat_add, u64_max, bytes_eq,
}
use remote_au.Crypto.Replay.{commit}
use remote_au.Crypto.Session.{Crates, DirectionKeys, derive}
use remote_au.Discovery.Sources.{SocketAddr}
use remote_au.Mixer.Streams.{
  GainFloat, Stream, Mixer, ensure_stream, remove_stream, stream_ids, touch, push_packet,
  set_stream_target_ms, expire_idle,
}
use remote_au.Protocol.Codec.Mono.{decode_canonical}
use remote_au.Protocol.Format.{max_streams}
use remote_au.Protocol.Wire.Bodies.{
  AudioBody, ProbeBody, decode_audio, decode_probe, encode_feedback,
}
use remote_au.Protocol.Wire.Header.{
  HeaderView, kind_hello, kind_audio, kind_feedback, kind_probe, parse_packet,
}
use remote_au.Protocol.Wire.Names.{decode_hello}
use remote_au.Transport.Packet.{Opened, open_packet, seal_packet}
use remote_au.Transport.Receiver.Peer.{
  JitterFloat, Peer, new, audio_arrived, probe_arrived, is_due, starvations_seen, feedback_of,
  PeerReport, report_of,
}

abbrev pub max_session_history : ℕ
max_session_history = 4096

module _ (j : JitterFloat) where
  -- `HashMap<[u8; 16], Peer>`.
  abbrev pub Peers : Type 0
  Peers = List (List ℕ × Peer j)

  pub record ReceiverEngine : Type 0 where
    pub token : List ℕ
    pub epoch : List ℕ
    pub peers : Peers
    pub history_cap : ℕ
    pub packets_received : ℕ
    pub packets_rejected : ℕ

  unfoldable pub with_history_cap : List ℕ → List ℕ → ℕ → ReceiverEngine
  with_history_cap token epoch history_cap = record {
    token = token;
    epoch = epoch;
    peers = [];
    history_cap = history_cap;
    packets_received = 0;
    packets_rejected = 0;
  }

  -- `self.peers.get(&session)`.
  unfoldable pub find_peer : List ℕ → Peers → Option (Peer j)
  find_peer session [] = none
  find_peer session ((key, peer) ∷ peers) =
      let rest = find_peer session peers in if bytes_eq key session then some peer else rest

  -- A write through `self.peers.get_mut(&session)`.
  pub put_peer : List ℕ → Peer j → Peers → Peers
  put_peer session changed [] = []
  put_peer session changed ((key, peer) ∷ peers) =
      let rest = put_peer session changed peers in
      if bytes_eq key session then (key, changed) ∷ peers else (key, peer) ∷ rest

  unfoldable pub active_count : Peers → ℕ
  active_count [] = 0
  active_count ((key, peer) ∷ peers) =
      let rest = active_count peers in if peer.active then 1 + rest else rest

  unfoldable pub peer_count : ReceiverEngine → ℕ
  peer_count e = active_count e.peers

  abbrev pub received : ReceiverEngine → ReceiverEngine
  received e = record e { packets_received = (e.packets_received + 1) % 2 ^ 64 }

  abbrev pub rejected : ReceiverEngine → ReceiverEngine
  rejected e = record e { packets_rejected = (e.packets_rejected + 1) % 2 ^ 64 }

  abbrev pub put : ReceiverEngine → List ℕ → Peer j → ReceiverEngine
  put e session peer = record e { peers = put_peer session peer e.peers }

-- An engine and the mixer that it feeds.
abbrev pub State : JitterFloat → GainFloat → Type 0
State j g = ReceiverEngine j × Mixer g

-- The crate hex writes a session as the identifier of its stream.
module _ (crates : Crates) (hex_encode : List ℕ → List ℕ) (j : JitterFloat) (g : GainFloat) where
  pub remove_all : List (List ℕ) → Mixer g → Mixer g
  remove_all [] m = m
  remove_all (id ∷ ids) m = remove_all ids (remove_stream g m id)

  pub rotate_epoch : ReceiverEngine j → Mixer g → List ℕ → State j g
  rotate_epoch e m fresh = (record e { epoch = fresh; peers = [] }, remove_all (stream_ids g m) m)

  -- A peer that the replay window takes stands at the end of the peers.
  pub insert_peer : ReceiverEngine j → Mixer g → Opened → Peer j → State j g
  insert_peer e m opened peer =
      let (replay, took) = commit peer.replay opened.counter in
      if not took then (rejected j e, remove_stream g m (hex_encode opened.session)) else (
        received j (record e {
          peers = e.peers ++ ((opened.session, record peer { replay = replay }) ∷ []);
        }),
        m,
      )

  -- An unknown session with the name of its hello.
  pub admit :
      ReceiverEngine j
      → Mixer g
      → DirectionKeys
      → Opened
      → SocketAddr
      → ℕ
      → List ℕ
      → Option (List ℕ)
      → State j g
  admit e m keys opened src clock fresh none = (rejected j e, m)
  admit e m keys opened src clock fresh (some name) =
      if leb e.history_cap (length e.peers)
      then (let (e', m') = rotate_epoch e m fresh in (rejected j e', m'))
      else (let (m', done) = ensure_stream g m (hex_encode opened.session) name clock in
          if not done
          then (rejected j e, m')
          else insert_peer e m' opened (new j keys src name clock))

  apply_audio_with :
      ReceiverEngine j → Mixer g → List ℕ → Peer j → AudioBody → Option (List ℕ) → ℕ → State j g
  apply_audio_with e m session peer audio none clock = (rejected j e, m)
  apply_audio_with e m session peer audio (some pcm) clock =
      let id = hex_encode session in
      (
        received j (put j e session (audio_arrived j peer audio clock)),
        (push_packet g (touch g m id clock) id audio.seq pcm clock).0,
      )

  apply_audio_body : ReceiverEngine j → Mixer g → List ℕ → Peer j → Option AudioBody → ℕ → State j g
  apply_audio_body e m session peer none clock = (rejected j e, m)
  apply_audio_body e m session peer (some audio) clock =
      apply_audio_with e m session peer audio (decode_canonical audio.codec audio.payload) clock

  pub apply_audio : ReceiverEngine j → Mixer g → List ℕ → Peer j → List ℕ → ℕ → State j g
  apply_audio e m session peer body clock =
      apply_audio_body e m session peer (decode_audio body) clock

  apply_probe_body : ReceiverEngine j → Mixer g → List ℕ → Peer j → Option ProbeBody → ℕ → State j g
  apply_probe_body e m session peer none clock = (rejected j e, m)
  apply_probe_body e m session peer (some probe) clock = (
    received j (put j e session (probe_arrived j peer probe clock)),
    touch g m (hex_encode session) clock,
  )

  pub apply_probe : ReceiverEngine j → Mixer g → List ℕ → Peer j → List ℕ → ℕ → State j g
  apply_probe e m session peer body clock =
      apply_probe_body e m session peer (decode_probe body) clock

  -- A hello of a known peer; the answer of `ensure_stream` is dropped.
  renamed : ReceiverEngine j → Mixer g → List ℕ → Peer j → Option (List ℕ) → ℕ → State j g
  renamed e m session peer none clock = (e, m)
  renamed e m session peer (some name) clock = (
    put j e session (record peer { name = name; active = true }),
    (ensure_stream g m (hex_encode session) name clock).0,
  )

  again : ReceiverEngine j → Mixer g → List ℕ → Peer j → List ℕ → ℕ → State j g
  again e m session peer body clock =
      let (e', m') = renamed e m session peer (decode_hello body) clock in (received j e', m')

  -- The `match` on the kind, for a peer whose window took the counter.
  pub by_kind : ReceiverEngine j → Mixer g → ℕ → List ℕ → Peer j → List ℕ → ℕ → State j g
  by_kind e m kind session peer body clock =
      if kind == kind_hello
      then again e m session peer body clock
      else if kind == kind_audio && peer.active
      then apply_audio e m session peer body clock
      else if kind == kind_probe && peer.active
      then apply_probe e m session peer body clock
      else if kind == kind_audio || kind == kind_probe
      then (e, m)
      else (rejected j e, m)

  -- The window of a known peer decides, and a packet that it takes moves the peer's address.
  pub accept : ReceiverEngine j → Mixer g → Opened → SocketAddr → ℕ → Option (Peer j) → State j g
  accept e m opened src clock none = (rejected j e, m)
  accept e m opened src clock (some peer) =
      let (replay, took) = commit peer.replay opened.counter in
      let seen = record peer { replay = replay } in
      if not took
      then (rejected j (put j e opened.session seen), m)
      else (let moved = record seen { addr = src } in
          by_kind (put j e opened.session moved) m opened.kind opened.session moved opened.body
            clock)

  known_opened : ReceiverEngine j → Mixer g → SocketAddr → ℕ → Option Opened → State j g
  known_opened e m src clock none = (rejected j e, m)
  known_opened e m src clock (some opened) =
      accept e m opened src clock (find_peer j opened.session e.peers)

  new_opened :
      ReceiverEngine j
      → Mixer g
      → DirectionKeys
      → SocketAddr
      → ℕ
      → List ℕ
      → Option Opened
      → State j g
  new_opened e m keys src clock fresh none = (rejected j e, m)
  new_opened e m keys src clock fresh (some opened) =
      admit e m keys opened src clock fresh (decode_hello opened.body)

  -- By the peer of the session: its keys open the packet, or a hello's with keys of its own.
  pub by_peer :
      ReceiverEngine j
      → Mixer g
      → HeaderView
      → List ℕ
      → SocketAddr
      → ℕ
      → List ℕ
      → Option (Peer j)
      → State j g
  by_peer e m view packet src clock fresh none =
      if not (view.kind == kind_hello) || leb max_streams (peer_count j e)
      then (rejected j e, m)
      else (let keys = derive crates e.token e.epoch view.session in
          new_opened e m keys src clock fresh (open_packet crates keys.sender_to_receiver packet))
  by_peer e m view packet src clock fresh (some peer) =
      known_opened e m src clock (open_packet crates peer.keys.sender_to_receiver packet)

  pub by_view :
      ReceiverEngine j → Mixer g → List ℕ → SocketAddr → ℕ → List ℕ → Option HeaderView → State j g
  by_view e m packet src clock fresh none = (rejected j e, m)
  by_view e m packet src clock fresh (some view) =
      if not (bytes_eq view.epoch e.epoch) || view.counter == 0
      then (rejected j e, m)
      else by_peer e m view packet src clock fresh (find_peer j view.session e.peers)

  pub handle_datagram : ReceiverEngine j → Mixer g → List ℕ → SocketAddr → ℕ → List ℕ → State j g
  handle_datagram e m packet src clock fresh =
      by_view e m packet src clock fresh (parse_packet packet)
