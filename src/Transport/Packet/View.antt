-- ===== src/Transport/Packet/View.antt =====
-- An opened packet (src/transport/packet.rs) beside the header that `parse_packet` reads from it.
use remote_au.Common.{ℕ, ◌≡◌, some, inl, inr, List, Option-cases}
use remote_au.Crypto.Session.{Crates, CipherDir, open_ciphertext, ok}
use remote_au.Protocol.Wire.Header.{HeaderView, parse_packet}
use remote_au.Transport.Packet.{Opened, open_packet}

module _ (crates : Crates) where
  -- What `open_packet` returns carries the fields of the header.
  pub record Views (view : HeaderView) (opened : Opened) : Type 0 where
    pub kind : opened.kind ≡ view.kind
    pub epoch : opened.epoch ≡ view.epoch
    pub session : opened.session ≡ view.session
    pub counter : opened.counter ≡ view.counter

  pub open_packet-Views :
      (dir : CipherDir) (packet : List ℕ) (view : HeaderView) (opened : Opened)
      → parse_packet packet ≡ some view
      → open_packet crates dir packet ≡ some opened
      → Views view opened
  unfolding open_packet
  open_packet-Views dir packet view opened v o =
      elim (Option-cases (ok (open_ciphertext crates dir view.counter view.aad view.ciphertext))) [
        | inl bad ↦ absurd (let a = simp (v, bad) at o in cc)
        | inr (body, good) ↦
            let a = simp (v, good) at o in
            record { kind = cc; epoch = cc; session = cc; counter = cc }
      ]

  pub open_packet-parses :
      (dir : CipherDir) (packet : List ℕ) (opened : Opened)
      → open_packet crates dir packet ≡ some opened
      → (view : HeaderView) × (parse_packet packet ≡ some view) × Views view opened
  unfolding open_packet
  open_packet-parses dir packet opened o = elim (Option-cases (parse_packet packet)) [
    | inl bad ↦ absurd (let a = rw bad at o in cc)
    | inr (view, good) ↦ (view, good, open_packet-Views dir packet view opened good o)
  ]
