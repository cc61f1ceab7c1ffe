-- ===== src/Discovery/Packet.antt =====
-- src/discovery/mod.rs: the signed packet, `signed_bytes`, `seal` and `open`.
pub mod RoundTrip
pub mod Size
use remote_au.Common.{
  ℕ, ◌+◌, ◌⊎◌, inl, inr, ◌||◌, Bool, Option, none, some, List, [], ◌∷◌, ◌++◌, length, drop,
  get_elem?, bytes_eq, leb, ltb, ◌==◌, ◌&&◌, if◌then◌else◌, ◌>>=◌, ◌>>◌, guard,
}
use remote_au.Common.Bytes.{get_range}
use remote_au.Crypto.Session.{Crates, ok, parse_invitation, discovery_key, mac16, mac_eq}

abbrev pub discovery_magic : List ℕ
discovery_magic = (b'R' ∷ b'A' ∷ b'U' ∷ b'D' ∷ [])

abbrev pub discovery_version : ℕ
discovery_version = 2

abbrev pub header_len : ℕ
header_len = 4 + 1 + 1 + 16 + 16

abbrev pub max_packet_bytes : ℕ
max_packet_bytes = 512

abbrev pub type_query : ℕ
type_query = 1

abbrev pub type_announce : ℕ
type_announce = 2

-- The `String` errors, one for each text.
pub data DiscoveryError : Type 0 where
  bad_token name_too_long missing_port packet_too_large : DiscoveryError

abbrev pub signed_bytes : ℕ → List ℕ → List ℕ → List ℕ
signed_bytes kind challenge body =
    discovery_magic ++ (discovery_version ∷ kind ∷ (challenge ++ body))

pub record Signed : Type 0 where
  pub kind : ℕ
  pub challenge : List ℕ
  pub body : List ℕ

module _ (crates : Crates) where
  -- The arrays have 16 bytes: the packet is its parts in a row.
  abbrev pub sealed_bytes : ℕ → List ℕ → List ℕ → List ℕ → List ℕ
  sealed_bytes kind challenge body key =
      discovery_magic
      ++ (discovery_version
          ∷ kind
          ∷ (challenge ++ (mac16 crates key (signed_bytes kind challenge body) ++ body)))

  pub seal : ℕ → List ℕ → List ℕ → List ℕ → DiscoveryError ⊎ List ℕ
  seal kind challenge body key =
      if ltb max_packet_bytes (header_len + length body)
      then inl packet_too_large
      else inr (sealed_bytes kind challenge body key)

  -- `open`.
  unfoldable pub open_signed : List ℕ → List ℕ → Option Signed
  open_signed packet token = do
    guard (leb header_len (length packet) && leb (length packet) max_packet_bytes)
    magic ← get_range packet 0 4
    guard (bytes_eq magic discovery_magic)
    version ← get_elem? packet 4
    guard (version == discovery_version)
    kind ← get_elem? packet 5
    challenge ← get_range packet 6 22
    mac ← get_range packet 22 38
    let body = drop header_len packet
    token ← ok (parse_invitation crates token)
    guard
        (mac_eq mac (mac16 crates (discovery_key crates token) (signed_bytes kind challenge body)))
    some (record { kind = kind; challenge = challenge; body = body })
