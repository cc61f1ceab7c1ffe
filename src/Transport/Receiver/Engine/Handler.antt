-- ===== src/Transport/Receiver/Engine/Handler.antt =====
-- `handle_datagram` as a whole.
use remote_au.Common.{
  ℕ, ◌≡◌, inl, inr, ap, none, some, List, not, ◌||◌, ◌==◌, leb, bytes_eq, Option-cases, sym,
}
use remote_au.Crypto.Session.{Crates, derive}
use remote_au.Discovery.Sources.{SocketAddr}
use remote_au.Mixer.Streams.{GainFloat, Mixer}
use remote_au.Protocol.Format.{max_streams}
use remote_au.Protocol.Wire.Header.{HeaderView, kind_hello, parse_packet}
use remote_au.Protocol.Wire.Names.{decode_hello}
use remote_au.Transport.Packet.{open_packet}
use remote_au.Transport.Packet.View.{open_packet-Views}
use remote_au.Transport.Receiver.Engine.{
  ReceiverEngine, rejected, find_peer, peer_count, known_opened, new_opened, by_peer, by_view,
  handle_datagram,
}
use remote_au.Transport.Receiver.Engine.Moves.{Moves}
use remote_au.Transport.Receiver.Engine.Paths.{
  MovesTo, Moves-if, Moves-refused, accept-Moves, admit-Moves,
}
use remote_au.Transport.Receiver.Peer.{JitterFloat, Peer}

module _ (crates : Crates) (hex_encode : List ℕ → List ℕ) (j : JitterFloat) (g : GainFloat)
    (fresh : List ℕ) (e : ReceiverEngine j) (m : Mixer g) (packet : List ℕ) (src : SocketAddr)
    (clock : ℕ) where
  refused : Moves crates j fresh e (rejected j e)
  refused = Moves-refused crates hex_encode j g fresh e

  known-Moves :
      (view : HeaderView) (p : Peer j)
      → MovesTo crates hex_encode j g fresh e
          (by_peer crates hex_encode j g e m view packet src clock fresh (some p))
  unfolding by_peer known_opened
  known-Moves view p = elim (Option-cases (open_packet crates p.keys.sender_to_receiver packet)) [
    | inl bad ↦ rw bad refused
    | inr (opened, good) ↦ rw good (accept-Moves crates hex_encode j g fresh e m src clock opened)
  ]

  unknown-Moves :
      (view : HeaderView)
      → parse_packet packet ≡ some view
      → MovesTo crates hex_encode j g fresh e
          (by_peer crates hex_encode j g e m view packet src clock fresh none)
  unfolding by_peer new_opened
  unknown-Moves view v =
      Moves-if crates hex_encode j g fresh e
        (not (view.kind == kind_hello) || leb max_streams (peer_count j e)) (rejected j e, m) _
        (λ _. refused)
        (λ _.
          let keys = derive crates e.token e.epoch view.session in
          elim (Option-cases (open_packet crates keys.sender_to_receiver packet)) [
            | inl bad ↦ rw bad refused
            | inr (opened, good) ↦ rw good (
                admit-Moves crates hex_encode j g fresh e m src clock opened keys
                  (decode_hello opened.body)
                  (ap (derive crates e.token e.epoch) (
                    sym
                      (open_packet-Views crates keys.sender_to_receiver packet view opened v
                        good).session)))
          ])

  pub handle_datagram-Moves :
      MovesTo crates hex_encode j g fresh e
        (handle_datagram crates hex_encode j g e m packet src clock fresh)
  unfolding handle_datagram by_view
  handle_datagram-Moves = elim (Option-cases (parse_packet packet)) [
    | inl bad ↦ rw bad refused
    | inr (view, good) ↦ rw good (
        Moves-if crates hex_encode j g fresh e
          (not (bytes_eq view.epoch e.epoch) || view.counter == 0) (rejected j e, m) _
          (λ _. refused)
          (λ _. elim (Option-cases (find_peer j view.session e.peers)) [
            | inl unknown ↦ rw unknown (unknown-Moves view good)
            | inr (p, known) ↦ rw known (known-Moves view p)
          ]))
  ]
