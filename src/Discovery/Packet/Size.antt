-- ===== src/Discovery/Packet/Size.antt =====
-- The size of a packet that `open` (src/discovery/mod.rs) takes.
use remote_au.Common.{
  ℕ, ◌≤◌, ◌≡◌, ◌&&◌, ◌>>=◌, Option, some, inl, inr, List, length, leb, Bool-cases, >>=-eq-some,
  arith,
}
use remote_au.Crypto.Session.{Crates}
use remote_au.Discovery.Packet.{Signed, header_len, max_packet_bytes, open_signed}

-- A packet within the bounds of `open`.
abbrev pub Sized : List ℕ → Type 0
Sized packet = (38 ≤ length packet) × (length packet ≤ 512)

module _ (crates : Crates) where
  open_signed-Sized :
      (packet token : List ℕ) (s : Signed) → open_signed crates packet token ≡ some s → Sized packet
  unfolding open_signed
  open_signed-Sized packet token s h =
      elim (Bool-cases (leb header_len (length packet) && leb (length packet) max_packet_bytes)) [
        | inl fits ↦ (ground arith, ground arith)
        | inr odd ↦ absurd (let no = simp odd at h in cc)
      ]

  -- What is made of the packet that `open` returns.
  pub opened-Sized :
      {A : Type 0} (packet token : List ℕ) (k : Signed → Option A) (a : A)
      → (open_signed crates packet token >>= k) ≡ some a
      → Sized packet
  opened-Sized packet token k a h =
      let (s, opened, _) = >>=-eq-some (open_signed crates packet token) k h in
      open_signed-Sized packet token s opened
