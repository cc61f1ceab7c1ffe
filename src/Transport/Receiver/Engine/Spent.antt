-- ===== src/Transport/Receiver/Engine/Spent.antt =====
-- Packets that `handle_datagram` has taken, and packets that it refuses.
use remote_au.Common.{
  ℕ, ◌+◌, ◌%◌, ◌^◌, ◌≡◌, ◌≢◌, ◌⊎◌, ◌∙◌, inl, inr, refl, sym, false, ◌==◌, some, List, bytes_eq,
  bytes_eq→eq, Bool-cases, Option-cases,
}
use remote_au.Crypto.Replay.{commit}
use remote_au.Crypto.Replay.Taken.{Took, Took-refuses}
use remote_au.Crypto.Session.{Crates}
use remote_au.Discovery.Sources.{SocketAddr}
use remote_au.Mixer.Streams.{GainFloat, Mixer}
use remote_au.Protocol.Wire.Header.{HeaderView, parse_packet}
use remote_au.Transport.Packet.{open_packet}
use remote_au.Transport.Packet.View.{open_packet-Views}
use remote_au.Transport.Receiver.Engine.{
  ReceiverEngine, State, rejected, find_peer, accept, known_opened, by_peer, by_view,
  handle_datagram,
}
use remote_au.Transport.Receiver.Engine.Moves.{Moves}
use remote_au.Transport.Receiver.Peer.{JitterFloat, Peer}

module _ (j : JitterFloat) where
  -- A counter of a session is spent: the epoch is over, or the session's window took it.
  abbrev pub Spent : List ℕ → List ℕ → ℕ → ReceiverEngine j → Type 0
  Spent epoch session counter e =
      (e.epoch ≢ epoch)
      ⊎ ((p : Peer j) × (find_peer j session e.peers ≡ some p) × Took p.replay counter)

  -- The packet is counted as rejected, and neither the mixer nor the other count changes.
  pub record Refused {g : GainFloat} (e : ReceiverEngine j) (m : Mixer g) (out : State j g)
      : Type 0 where
    pub counted : out.0.packets_rejected ≡ (e.packets_rejected + 1) % 2 ^ 64
    pub received : out.0.packets_received ≡ e.packets_received
    pub epoch : out.0.epoch ≡ e.epoch
    pub mixer : out.1 ≡ m

module _ (crates : Crates) (j : JitterFloat) where
  pub Spent-Moves :
      (epoch session fresh : List ℕ) (counter : ℕ) (e out : ReceiverEngine j)
      → fresh ≢ epoch
      → Moves crates j fresh e out
      → Spent j epoch session counter e
      → Spent j epoch session counter out
  Spent-Moves epoch session fresh counter e out ne m s = elim m.step [
    | inr now ↦ inl (λ h. ne (sym now ∙ h))
    | inl (same, later) ↦ elim s [
      | inl over ↦ inl (λ h. over (sym same ∙ h))
      | inr (p, found, took) ↦
          let (q, at, grows) = later session p found in inr (q, at, grows counter took)
    ]
  ]

module _ (crates : Crates) (hex_encode : List ℕ → List ℕ) (j : JitterFloat) (g : GainFloat)
    (fresh : List ℕ) (e : ReceiverEngine j) (m : Mixer g) (packet : List ℕ) (src : SocketAddr)
    (clock : ℕ) (view : HeaderView) (parsed : parse_packet packet ≡ some view) where
  rejected-Refused : Refused j e m (rejected j e, m)
  rejected-Refused = record { counted = refl; received = refl; epoch = refl; mixer = refl }

  known-Refused :
      (p : Peer j)
      → find_peer j view.session e.peers ≡ some p
      → Took p.replay view.counter
      → Refused j e m (by_peer crates hex_encode j g e m view packet src clock fresh (some p))
  unfolding by_peer known_opened accept
  known-Refused p found took =
      elim (Option-cases (open_packet crates p.keys.sender_to_receiver packet)) [
        | inl bad ↦ rw bad rejected-Refused
        | inr (opened, good) ↦
            let v =
              open_packet-Views crates p.keys.sender_to_receiver packet view opened parsed good in
            let found' : find_peer j opened.session e.peers ≡ some p = rw v.session found in
            let no_take : (commit p.replay opened.counter).1 ≡ false =
              Took-refuses p.replay opened.counter (rw v.counter took) in
            simp (good, found', no_take)
              (record { counted = refl; received = refl; epoch = refl; mixer = refl })
      ]

  -- A spent packet is refused.
  pub Spent-Refused :
      Spent j view.epoch view.session view.counter e
      → Refused j e m (handle_datagram crates hex_encode j g e m packet src clock fresh)
  unfolding handle_datagram by_view
  Spent-Refused spent = rw parsed (elim (Bool-cases (bytes_eq view.epoch e.epoch)) [
    | inr other ↦ simp other rejected-Refused
    | inl same ↦ elim (Bool-cases (view.counter == 0)) [
      | inl zero_counter ↦ simp (same, zero_counter) rejected-Refused
      | inr counts ↦
          simp (same, counts)
            (elim spent [
              | inl over ↦ absurd (over (sym (bytes_eq→eq view.epoch e.epoch same)))
              | inr (p, found, took) ↦ rw found (known-Refused p found took)
            ])
    ]
  ])
