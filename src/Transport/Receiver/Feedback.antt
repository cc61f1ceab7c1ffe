-- ===== src/Transport/Receiver/Feedback.antt =====
-- src/transport/receiver.rs: the timed work of the receiving engine, `feedback_due` and `expire`, and its reports.
pub mod Moves
pub mod Sends
use remote_au.Common.{
  ℕ, ◌+◌, Bool, true, false, ◌||◌, Option, none, some, List, [], ◌∷◌, ◌++◌, ◌==◌, if◌then◌else◌,
  sat_add, u64_max, bytes_eq,
}
use remote_au.Crypto.Session.{Crates}
use remote_au.Discovery.Sources.{SocketAddr}
use remote_au.Mixer.Streams.{GainFloat, Stream, Mixer, set_stream_target_ms, expire_idle}
use remote_au.Protocol.Wire.Bodies.{encode_feedback}
use remote_au.Protocol.Wire.Header.{kind_feedback}
use remote_au.Transport.Packet.{seal_packet}
use remote_au.Transport.Receiver.Engine.{Peers, ReceiverEngine, State}
use remote_au.Transport.Receiver.Peer.{
  JitterFloat, Peer, is_due, starvations_seen, feedback_of, PeerReport, report_of,
}

module _ (crates : Crates) (hex_encode : List ℕ → List ℕ) (j : JitterFloat) (g : GainFloat) where
  -- The starvations of a stream, or 0.
  pub starvations_of : List ℕ → List (Stream g) → ℕ
  starvations_of id [] = 0
  starvations_of id (s ∷ streams) =
      let rest = starvations_of id streams in
      if bytes_eq s.id id then s.buffer.starvations else rest

  -- The end of a round of `feedback_due`, by the sealed packet.
  sent_feedback : Peer j → ℕ → Option (List ℕ) → Peer j × List (SocketAddr × List ℕ)
  sent_feedback peer now none = (peer, [])
  sent_feedback peer now (some packet) =
      (record peer { last_feedback = some now }, (peer.addr, packet) ∷ [])

  -- The next counter, and the packet under it unless it is 0.
  seal_feedback : List ℕ → List ℕ → Peer j → ℕ → ℕ → ℕ → Peer j × List (SocketAddr × List ℕ)
  seal_feedback epoch session peer starvations now clock =
      let counter = sat_add u64_max peer.send_counter 1 in
      let counted = record peer { send_counter = counter } in
      if counter == 0
      then (counted, [])
      else sent_feedback counted now (
          seal_packet crates peer.keys.receiver_to_sender epoch session counter kind_feedback
            (encode_feedback (feedback_of j peer starvations clock)))

  -- A round of the loop of `feedback_due`, for a peer that is due.
  pub feedback_to :
      List ℕ → List ℕ → Peer j → Mixer g → ℕ → ℕ → Peer j × Mixer g × List (SocketAddr × List ℕ)
  feedback_to epoch session peer m now clock =
      let id = hex_encode session in
      let starvations = starvations_of id m.streams in
      let seen = starvations_seen j peer starvations in
      let (sent, out) = seal_feedback epoch session seen starvations now clock in
      (sent, (set_stream_target_ms g m id seen.buffer_ms).0, out)

  pub feedback_all :
      List ℕ → Peers j → Mixer g → ℕ → ℕ → Peers j × Mixer g × List (SocketAddr × List ℕ)
  feedback_all epoch [] m now clock = ([], m, [])
  feedback_all epoch ((session, peer) ∷ peers) m now clock =
      let (peer', m', out) =
        if is_due j peer now then feedback_to epoch session peer m now clock else (peer, m, []) in
      let (peers', m'', outs) = feedback_all epoch peers m' now clock in
      ((session, peer') ∷ peers', m'', out ++ outs)

  -- `now` is the argument of the code, `clock` what `elapsed` reads.
  pub feedback_due : ReceiverEngine j → Mixer g → ℕ → ℕ → State j g × List (SocketAddr × List ℕ)
  feedback_due e m now clock =
      let (peers, m', out) = feedback_all e.epoch e.peers m now clock in
      ((record e { peers = peers }, m'), out)

  is_gone : List ℕ → List (List ℕ) → Bool
  is_gone id [] = false
  is_gone id (gone ∷ removed) = bytes_eq gone id || is_gone id removed

  pub retire : List (List ℕ) → Peers j → Peers j
  retire removed [] = []
  retire removed ((session, peer) ∷ peers) =
      (
        session,
        (if is_gone (hex_encode session) removed then record peer { active = false } else peer),
      )
      ∷ retire removed peers

  pub expire : ReceiverEngine j → Mixer g → ℕ → ℕ → State j g
  expire e m max_idle now =
      let (m', removed) = expire_idle g m max_idle now in
      (record e { peers = retire removed e.peers }, m')

  reports_from : Peers j → List (PeerReport j)
  reports_from [] = []
  reports_from ((session, peer) ∷ peers) =
      let rest = reports_from peers in
      if peer.active then report_of j (hex_encode session) peer ∷ rest else rest

  pub reports : ReceiverEngine j → List (PeerReport j)
  reports e = reports_from e.peers
