-- ===== src/Transport/Receiver/Engine/Accepted.antt =====
-- What a packet that `handle_datagram` does not reject leaves behind.
use remote_au.Common.{
  ℕ, ◌+◌, ◌%◌, ◌^◌, ◌≡◌, ◌≢◌, inl, inr, not, ◌||◌, ◌==◌, none, some, List, leb, length, bytes_eq,
  bytes_eq_refl, Bool-cases, Option-cases, arith,
}
use remote_au.Crypto.Replay.{commit}
use remote_au.Crypto.Replay.Taken.{commit_takes, new-IsWindow}
use remote_au.Crypto.Session.{Crates, DirectionKeys, derive}
use remote_au.Discovery.Sources.{SocketAddr}
use remote_au.Mixer.Streams.{GainFloat, Mixer, ensure_stream}
use remote_au.Protocol.Format.{max_streams}
use remote_au.Protocol.Wire.Header.{HeaderView, kind_hello, parse_packet}
use remote_au.Protocol.Wire.Names.{decode_hello}
use remote_au.Transport.Packet.{Opened, open_packet}
use remote_au.Transport.Packet.View.{open_packet-Views}
use remote_au.Transport.Receiver.Engine.{
  ReceiverEngine, State, put, find_peer, peer_count, insert_peer, admit, rotate_epoch, accept,
  known_opened, new_opened, by_peer, by_view, handle_datagram,
}
use remote_au.Transport.Receiver.Engine.Moves.{PeerSound, SoundEngine}
use remote_au.Transport.Receiver.Engine.PeerList.{
  find_peer-put_peer, find_peer-AllPeers, find_peer-append_new,
}
use remote_au.Transport.Receiver.Engine.Paths.{by_kind-Moves}
use remote_au.Transport.Receiver.Engine.Spent.{Spent, Spent-Moves}
use remote_au.Transport.Receiver.Peer.{JitterFloat, Peer, new}

module _ (crates : Crates) (hex_encode : List ℕ → List ℕ) (j : JitterFloat) (g : GainFloat)
    (fresh : List ℕ) (e : ReceiverEngine j) where
  -- The count of rejected packets rises.
  counted {ℓ} : {A : Type ℓ} → (e.packets_rejected + 1) % 2 ^ 64 ≡ e.packets_rejected → A
  counted h = absurd (omega arith)

  module _ (m : Mixer g) (packet : List ℕ) (src : SocketAddr) (clock : ℕ) (view : HeaderView)
      (parsed : parse_packet packet ≡ some view) (other : fresh ≢ view.epoch) where
    abbrev Leaves : State j g → Type 0
    Leaves out =
        out.0.packets_rejected ≡ e.packets_rejected
        → Spent j view.epoch view.session view.counter out.0

    accept-Leaves :
        (opened : Opened)
        → SoundEngine crates j e
        → opened.session ≡ view.session
        → opened.counter ≡ view.counter
        → Leaves
            (accept crates hex_encode j g e m opened src clock (find_peer j opened.session e.peers))
    unfolding accept
    accept-Leaves opened s es ec = elim (Option-cases (find_peer j opened.session e.peers)) [
      | inl gone ↦ rw gone counted
      | inr (p, found) ↦ elim (Bool-cases (commit p.replay opened.counter).1) [
        | inr stale ↦ simp (found, stale) counted
        | inl fresh_one ↦
            simp (found, fresh_one)
              (λ h.
                let moved : Peer j = record p {
                  replay = (commit p.replay opened.counter).0;
                  addr = src;
                } in
                let sound_p =
                  find_peer-AllPeers j (PeerSound crates j e.token e.epoch) opened.session p e.peers
                    found s.peers in
                let at = find_peer-put_peer j opened.session p moved e.peers found in
                Spent-Moves crates j view.epoch view.session fresh view.counter
                  (put j e opened.session moved) _ other
                  (by_kind-Moves crates hex_encode j g fresh (put j e opened.session moved) m
                    opened.session moved at clock opened.kind opened.body)
                  (inr (
                    moved,
                    rw (← es) at,
                    rw (← ec) (commit_takes p.replay opened.counter sound_p.window fresh_one),
                  )))
      ]
    ]

    insert_peer-Leaves :
        (opened : Opened) (keys : DirectionKeys) (name : List ℕ) (m' : Mixer g)
        → opened.session ≡ view.session
        → opened.counter ≡ view.counter
        → find_peer j view.session e.peers ≡ none
        → Leaves (insert_peer crates hex_encode j g e m' opened (new j keys src name clock))
    unfolding insert_peer new
    insert_peer-Leaves opened keys name m' es ec absent =
        elim (Bool-cases (commit (remote_au.Crypto.Replay.new 2048) opened.counter).1) [
          | inr stale ↦ simp stale counted
          | inl fresh_one ↦ simp fresh_one (λ h. inr (
            record (new j keys src name clock) {
              replay = (commit (remote_au.Crypto.Replay.new 2048) opened.counter).0;
            },
            rw (← es) (
                find_peer-append_new j opened.session _ e.peers (rw es absent)
                  (bytes_eq_refl opened.session)),
            rw (← ec) (commit_takes _ opened.counter (new-IsWindow 2048) fresh_one),
          ))
        ]

    admit-Leaves :
        (opened : Opened) (keys : DirectionKeys)
        → opened.session ≡ view.session
        → opened.counter ≡ view.counter
        → find_peer j view.session e.peers ≡ none
        → Leaves
            (admit crates hex_encode j g e m keys opened src clock fresh (decode_hello opened.body))
    unfolding admit rotate_epoch
    admit-Leaves opened keys es ec absent = elim (Option-cases (decode_hello opened.body)) [
      | inl bad ↦ rw bad counted
      | inr (name, good) ↦ elim (Bool-cases (leb e.history_cap (length e.peers))) [
        | inl full ↦ simp (good, full) counted
        | inr room ↦
            elim (Bool-cases (ensure_stream g m (hex_encode opened.session) name clock).1) [
              | inr no_stream ↦ simp (good, room, no_stream) counted
              | inl stream ↦
                  simp (good, room, stream) (insert_peer-Leaves opened keys name _ es ec absent)
            ]
      ]
    ]

    known-Leaves :
        (p : Peer j)
        → SoundEngine crates j e
        → Leaves (by_peer crates hex_encode j g e m view packet src clock fresh (some p))
    unfolding by_peer known_opened
    known-Leaves p s = elim (Option-cases (open_packet crates p.keys.sender_to_receiver packet)) [
      | inl bad ↦ rw bad counted
      | inr (opened, good) ↦
          let v =
            open_packet-Views crates p.keys.sender_to_receiver packet view opened parsed good in
          rw good (accept-Leaves opened s v.session v.counter)
    ]

    unknown-Leaves :
        find_peer j view.session e.peers ≡ none
        → Leaves (by_peer crates hex_encode j g e m view packet src clock fresh none)
    unfolding by_peer new_opened
    unknown-Leaves absent =
        elim (Bool-cases (not (view.kind == kind_hello) || leb max_streams (peer_count j e))) [
          | inl closed ↦ simp closed counted
          | inr admitted ↦
              let keys = derive crates e.token e.epoch view.session in
              elim (Option-cases (open_packet crates keys.sender_to_receiver packet)) [
                | inl bad ↦ simp (admitted, bad) counted
                | inr (opened, good) ↦
                    let v =
                      open_packet-Views crates keys.sender_to_receiver packet view opened parsed
                        good in
                    simp (admitted, good) (admit-Leaves opened keys v.session v.counter absent)
              ]
        ]

    pub handle_datagram-Leaves :
        SoundEngine crates j e
        → Leaves (handle_datagram crates hex_encode j g e m packet src clock fresh)
    unfolding handle_datagram by_view
    handle_datagram-Leaves s =
        rw parsed (elim (Bool-cases (not (bytes_eq view.epoch e.epoch) || view.counter == 0)) [
          | inl wrong ↦ simp wrong counted
          | inr right ↦ simp right (elim (Option-cases (find_peer j view.session e.peers)) [
            | inl absent ↦ rw absent (unknown-Leaves absent)
            | inr (p, found) ↦ rw found (known-Leaves p s)
          ])
        ])
