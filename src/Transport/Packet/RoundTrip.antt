-- ===== src/Transport/Packet/RoundTrip.antt =====
-- Sealing against opening (src/transport/packet.rs).
use remote_au.Common.{
  ℕ, ◌+◌, ◌^◌, ◌≤◌, ◌<◌, ◌≡◌, refl, ap, ◌∙◌, inr, ◌||◌, false, Option, none, some, List, length,
  ltb, ◌==◌, ◌>>=◌, arith,
}
use remote_au.Protocol.Format.{max_datagram}
use remote_au.Protocol.Wire.Header.{HeaderView, header_len, header_bytes, parse_packet, assemble}
use remote_au.Protocol.Wire.Header.RoundTrip.{parse_packet-assemble}
use remote_au.Crypto.Session.{Crates, Documented, CipherDir, seal, open_ciphertext}
use remote_au.Crypto.Session.Laws.{open_ciphertext-seal}
use remote_au.Transport.Packet.{seal_packet, open_packet}

module _ (crates : Crates) (documented : Documented crates) where
  seal_packet_of :
      (dir : CipherDir) (epoch session ct : List ℕ) (counter kind : ℕ) (body : List ℕ)
      → seal crates dir counter (header_bytes kind epoch session counter) body ≡ inr ct
      → 0 < counter
      → length body ≤ 1138
      → seal_packet crates dir epoch session counter kind body
        ≡ assemble kind epoch session counter ct
  unfolding seal_packet
  seal_packet_of dir epoch session ct counter kind body e c0 hb = rw (room, e) refl
    where
      room : (counter == 0 || ltb max_datagram (header_len + length body + 16)) ≡ false
      room = ground arith

  open_packet_of :
      (dir : CipherDir) (packet body : List ℕ) (view : HeaderView)
      → parse_packet packet ≡ some view
      → open_ciphertext crates dir view.counter view.aad view.ciphertext ≡ inr body
      → open_packet crates dir packet
        ≡ some (record {
          kind = view.kind;
          epoch = view.epoch;
          session = view.session;
          counter = view.counter;
          body = body;
        })
  unfolding open_packet
  open_packet_of dir packet body view e d = simp (e, d) refl

  open_assembled :
      (dir : CipherDir) (o : Option (List ℕ)) (body : List ℕ) (view : HeaderView)
      → (o >>= parse_packet) ≡ some view
      → open_ciphertext crates dir view.counter view.aad view.ciphertext ≡ inr body
      → (o >>= open_packet crates dir)
        ≡ some (record {
          kind = view.kind;
          epoch = view.epoch;
          session = view.session;
          counter = view.counter;
          body = body;
        })
  open_assembled dir none body view e d = cc
  open_assembled dir (some packet) body view e d = open_packet_of dir packet body view e d

  -- A packet of a known kind, with 16-byte identifiers, a nonzero 64-bit counter and a body of at most 1138 bytes is sealed into a datagram that the same direction opens to the kind, the identifiers, the counter and the body.
  pub open_packet-seal_packet :
      (dir : CipherDir) (epoch session : List ℕ) (counter kind : ℕ) (body : List ℕ)
      → 1 ≤ kind
      → kind ≤ 4
      → length epoch ≡ 16
      → length session ≡ 16
      → 0 < counter
      → counter < 2 ^ 64
      → length body ≤ 1138
      → (seal_packet crates dir epoch session counter kind body >>= open_packet crates dir)
        ≡ some (record {
          kind = kind;
          epoch = epoch;
          session = session;
          counter = counter;
          body = body;
        })
  open_packet-seal_packet dir epoch session counter kind body k1 k4 he hs c0 c1 hb =
      let (ct, e, n, d) =
        open_ciphertext-seal crates documented dir counter (header_bytes kind epoch session counter)
          body c0 (omega arith) in
      let parsed =
        parse_packet-assemble kind counter epoch session ct k1 k4 he hs c0 c1 (omega (arith, n))
          (omega (arith, n)) in
      ap (λ o. o >>= open_packet crates dir)
        (seal_packet_of dir epoch session ct counter kind body e c0 hb)
      ∙ open_assembled dir (assemble kind epoch session counter ct) body _ parsed d
