-- ===== src/Transport/Packet.antt =====
-- src/transport/packet.rs: a sealed packet, its header bound to the ciphertext.
pub mod RoundTrip
pub mod View
pub mod Tests
use remote_au.Common.{
  ℕ, ◌+◌, ◌||◌, Option, none, some, List, ◌++◌, length, ltb, ◌==◌, if◌then◌else◌, ◌>>=◌,
}
use remote_au.Protocol.Format.{max_datagram}
use remote_au.Protocol.Wire.Header.{HeaderView, header_len, header_bytes, parse_packet, assemble}
use remote_au.Crypto.Session.{Crates, CipherDir, seal, open_ciphertext, ok}

pub record Opened : Type 0 where
  pub kind : ℕ
  pub epoch : List ℕ
  pub session : List ℕ
  pub counter : ℕ
  pub body : List ℕ

module _ (crates : Crates) where
  pub seal_packet : CipherDir → List ℕ → List ℕ → ℕ → ℕ → List ℕ → Option (List ℕ)
  seal_packet dir epoch session counter kind body =
      if counter == 0 || ltb max_datagram (header_len + length body + 16) then none else (do
        ct ← ok (seal crates dir counter (header_bytes kind epoch session counter) body)
        assemble kind epoch session counter ct)

  unfoldable pub open_packet : CipherDir → List ℕ → Option Opened
  open_packet dir packet = do
    view ← parse_packet packet
    body ← ok (open_ciphertext crates dir view.counter view.aad view.ciphertext)
    some (record {
      kind = view.kind;
      epoch = view.epoch;
      session = view.session;
      counter = view.counter;
      body = body;
    })
