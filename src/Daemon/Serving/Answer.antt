-- ===== src/Daemon/Serving/Answer.antt =====
-- A search for receivers (`discover_toward`) against a receiving daemon (`run_server`), both of src/daemon/mod.rs.
use remote_au.Common.{
  ℕ, ◌≡◌, refl, inr, true, false, ◌||◌, ◌==◌, some, List, [], ◌∷◌, length, leb, ltb, bytes_eq,
  >>=-eq-some, arith,
}
use remote_au.Common.Utf8.{IsText}
use remote_au.Crypto.Session.{Crates, Documented, parse_invitation}
use remote_au.Daemon.Discover.{taken}
use remote_au.Daemon.Discover.Authentic.{taken_opened}
use remote_au.Daemon.Serving.{
  datagram, query, ServerTurn, answer_to, by_answer, on_datagram, sent_answer, on_query,
  server_turn,
}
use remote_au.Discovery.Announce.{Announce, SignedQuery, encode_query, respond_to_query}
use remote_au.Discovery.Announce.Parts.{IsAnnounce}
use remote_au.Discovery.Announce.RoundTrip.{open_announce-respond_to_query}
use remote_au.Discovery.Announce.Size.{open_announce-Sized, respond_to_query-Sized}
use remote_au.Discovery.Packet.Size.{Sized}
use remote_au.Discovery.Sources.{SocketAddr}
use remote_au.Mixer.Streams.{GainFloat}
use remote_au.Protocol.Format.{max_datagram}
use remote_au.Protocol.Wire.Names.{clip_name}
use remote_au.Transport.Receiver.Engine.{State}
use remote_au.Transport.Receiver.Peer.{JitterFloat}

Sized-passes :
    (packet : List ℕ)
    → Sized packet
    → ((length packet == 0 || ltb 512 (length packet)) ≡ false)
      × ((length packet == 0 || ltb max_datagram (length packet)) ≡ false)
      × (leb (length packet) 512 ≡ true)
Sized-passes packet (low, high) =
    (ground (arith, low, high), ground (arith, low, high), ground (arith, high))

module _ (crates : Crates) (documented : Documented crates) (hex_encode : List ℕ → List ℕ)
    (j : JitterFloat) (g : GainFloat) (invitation t : List ℕ)
    (parsed : parse_invitation crates invitation ≡ inr t) (template : Announce) where
  -- The turn of a daemon that only answers.
  abbrev answers : State j g → SocketAddr → List ℕ → ServerTurn crates hex_encode j g
  answers s src answer = record { next = s; sent = (src, answer) ∷ []; left = false }

  module _ (s : State j g) (packet answer : List ℕ) (src : SocketAddr)
      (is : answer_to crates hex_encode j g invitation template s packet ≡ some answer)
      (sized : Sized packet) where
    query_answered :
        server_turn crates hex_encode j g invitation template s (query packet src)
        ≡ answers s src answer
    unfolding server_turn on_query sent_answer
    query_answered = rw ((Sized-passes packet sized).0, is) refl

    datagram_answered :
        (clock : ℕ) (fresh : List ℕ)
        → server_turn crates hex_encode j g invitation template s (datagram packet src clock fresh)
          ≡ answers s src answer
    unfolding server_turn on_datagram by_answer
    datagram_answered clock fresh =
        rw ((Sized-passes packet sized).1, (Sized-passes packet sized).2, is) refl

  -- A search, with a challenge of 16 bytes and a text for a name, for any receiver or for one by its name, no longer than a clipped one, that reaches a receiving daemon of the group whose announce has a port, arrays of their sizes and a text for a name, on a discovery socket or on the socket of its audio, is answered once, to where it came from, and the daemon's state stays. The search takes the answer, from whatever source it comes: the daemon's announce, its name clipped, under the very epoch that the engine then has.
  pub discovered :
      (name challenge : List ℕ) (s : State j g) (src source : SocketAddr) (clock : ℕ)
      (fresh : List ℕ)
      → IsText name
      → length challenge ≡ 16
      → IsAnnounce (record template { epoch = s.0.epoch })
      → (length (clip_name name) == 0 || bytes_eq (clip_name name) template.name) ≡ true
      → (length name == 0 || bytes_eq (clip_name template.name) name) ≡ true
      → (q : SignedQuery) × (answer : List ℕ) × (encode_query crates name invitation challenge
          ≡ inr q)
        × (server_turn crates hex_encode j g invitation template s (query q.bytes src)
            ≡ answers s src answer)
        × (server_turn crates hex_encode j g invitation template s
              (datagram q.bytes src clock fresh)
            ≡ answers s src answer)
        × (taken crates name invitation q.challenge answer source
            ≡ some (record template { epoch = s.0.epoch; name = clip_name template.name }, source))
  unfolding answer_to
  discovered name challenge s src source clock fresh text size announce asked fits =
      let (q, encoded, bound) =
        open_announce-respond_to_query crates documented invitation t parsed name challenge
          (record template { epoch = s.0.epoch }) text size announce asked in
      let (answer, responds, opens) =
        >>=-eq-some
          (respond_to_query crates q.bytes invitation (record template { epoch = s.0.epoch })) _
          bound in
      let asks =
        respond_to_query-Sized crates q.bytes invitation (record template { epoch = s.0.epoch })
          answer responds in
      let answered = open_announce-Sized crates answer invitation q.challenge _ opens in
      (
        q,
        answer,
        encoded,
        query_answered s q.bytes answer src responds asks,
        datagram_answered s q.bytes answer src responds asks clock fresh,
        taken_opened crates name invitation q.challenge answer source _
            (Sized-passes answer answered).0 opens fits,
      )
