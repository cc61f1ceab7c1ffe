-- ===== src/Transport/Receiver/Engine/Limit.antt =====
-- The number of active peers under the hello of a known one.
use remote_au.Common.{
  ℕ, ◌+◌, ◌%◌, ◌^◌, ◌<◌, ◌≡◌, ◌∙◌, refl, sym, ap, inl, inr, true, false, ◌==◌, some, List, [], ◌∷◌,
  bytes_eq, bytes_eq_refl, if◌then◌else◌, Bool-cases, arith,
}
use remote_au.Crypto.Replay.{commit}
use remote_au.Crypto.Session.{Crates}
use remote_au.Discovery.Sources.{SocketAddr}
use remote_au.Mixer.Streams.{GainFloat, Mixer, ensure_stream}
use remote_au.Protocol.Wire.Header.{kind_hello}
use remote_au.Protocol.Wire.Names.{decode_hello}
use remote_au.Transport.Packet.{Opened, open_packet}
use remote_au.Transport.Packet.View.{open_packet-parses}
use remote_au.Transport.Receiver.Engine.{
  Peers, ReceiverEngine, find_peer, put_peer, active_count, peer_count, handle_datagram, by_view,
  by_peer, known_opened, accept, by_kind, again, renamed,
}
use remote_au.Transport.Receiver.Engine.PeerList.{find_peer-put_peer}
use remote_au.Transport.Receiver.Peer.{JitterFloat, Peer}

module _ (j : JitterFloat) where
  active_count-put_same :
      (session : List ℕ) (p q : Peer j) (ps : Peers j)
      → find_peer j session ps ≡ some p
      → q.active ≡ p.active
      → active_count j (put_peer j session q ps) ≡ active_count j ps
  unfolding active_count put_peer find_peer
  active_count-put_same session p q [] found same = cc
  active_count-put_same session p q ((key, x) ∷ ps) found same =
      elim (Bool-cases (bytes_eq key session)) [
        | inl here ↦
            let e : q.active ≡ x.active = (let a = simp here at found in cc) in
            simp here (rw e refl)
        | inr there ↦ simp there (
            ap (λ n. if x.active then 1 + n else n)
              (active_count-put_same session p q ps (simp there at found) same))
      ]

  active_count-put_active :
      (session : List ℕ) (p q : Peer j) (ps : Peers j)
      → find_peer j session ps ≡ some p
      → p.active ≡ false
      → q.active ≡ true
      → active_count j (put_peer j session q ps) ≡ active_count j ps + 1
  unfolding active_count put_peer find_peer
  active_count-put_active session p q [] found off on = cc
  active_count-put_active session p q ((key, x) ∷ ps) found off on =
      elim (Bool-cases (bytes_eq key session)) [
        | inl here ↦
            let e : x.active ≡ false = (let a = simp here at found in cc) in
            simp (here, e, on) (omega arith)
        | inr there ↦
            simp there
              (ground (arith, active_count-put_active session p q ps (simp there at found)))
      ]

module _ (crates : Crates) (hex_encode : List ℕ → List ℕ) (j : JitterFloat) (g : GainFloat) where
  -- A hello of a known peer that is no longer active, under a counter that its window takes, makes it active whatever the number of active peers is, so that eight become nine; a stream that the mixer refuses it is no obstacle, and the packet counts as received.
  pub again-over :
      (e : ReceiverEngine j) (m : Mixer g) (packet : List ℕ) (src : SocketAddr) (clock : ℕ)
      (fresh : List ℕ) (opened : Opened) (p : Peer j) (name : List ℕ)
      → find_peer j opened.session e.peers ≡ some p
      → open_packet crates p.keys.sender_to_receiver packet ≡ some opened
      → opened.kind ≡ kind_hello
      → opened.epoch ≡ e.epoch
      → 0 < opened.counter
      → p.active ≡ false
      → (commit p.replay opened.counter).1 ≡ true
      → decode_hello opened.body ≡ some name
      → let out = handle_datagram crates hex_encode j g e m packet src clock fresh in
        (peer_count j out.0 ≡ peer_count j e + 1)
        × (out.0.packets_received ≡ (e.packets_received + 1) % 2 ^ 64)
        × (out.1 ≡ (ensure_stream g m (hex_encode opened.session) name clock).0)
  unfolding handle_datagram by_view by_peer known_opened accept by_kind again renamed peer_count
  again-over e m packet src clock fresh opened p name found opens kind here pos off took named =
      let (view, parsed, v) =
        open_packet-parses crates p.keys.sender_to_receiver packet opened opens in
      let same : bytes_eq view.epoch e.epoch ≡ true =
        ap (λ x. bytes_eq x e.epoch) (sym v.epoch ∙ here) ∙ bytes_eq_refl e.epoch in
      let counts : (view.counter == 0) ≡ false = (let c = v.counter in ground arith) in
      let session : view.session ≡ opened.session = sym v.session in
      let moved : Peer j = record p { replay = (commit p.replay opened.counter).0; addr = src } in
      simp (parsed, same, counts, session, found, opens, took, kind, named)
        (
          active_count-put_active j opened.session moved
                (record moved { name = name; active = true })
                (put_peer j opened.session moved e.peers)
                (find_peer-put_peer j opened.session p moved e.peers found) off refl
              ∙ ap (λ n. n + 1) (active_count-put_same j opened.session p moved e.peers found refl),
          refl,
          refl,
        )
