-- ===== src/Protocol/Wire/Header.antt =====
-- src/protocol/wire.rs: the packet kinds, `parse_packet` and `assemble`.
pub mod RoundTrip
use remote_au.Common.{
  ℕ, ◌+◌, ◌≤◌, ◌<◌, ◌^◌, ◌≡◌, Bool, ◌||◌, ◌&&◌, Option, none, some, List, [], ◌∷◌, ◌++◌, length,
  take, drop, get_elem?, bytes_eq, leb, ltb, ◌==◌, not, if◌then◌else◌, ◌>>=◌, ◌>>◌, guard,
}
use remote_au.Common.Bytes.{to_be, from_be, get_range}
use remote_au.Protocol.Format.{max_datagram, contains}

abbrev pub magic : List ℕ
magic = b'R' ∷ b'A' ∷ b'U' ∷ b'2' ∷ []

abbrev pub version : ℕ
version = 2

abbrev pub header_len : ℕ
header_len = 46

abbrev pub kind_hello : ℕ
kind_hello = 1

abbrev pub kind_audio : ℕ
kind_audio = 2

abbrev pub kind_feedback : ℕ
kind_feedback = 3

abbrev pub kind_probe : ℕ
kind_probe = 4

pub record HeaderView : Type 0 where
  pub kind : ℕ
  pub epoch : List ℕ
  pub session : List ℕ
  pub counter : ℕ
  pub aad : List ℕ
  pub ciphertext : List ℕ

unfoldable pub parse_packet : List ℕ → Option HeaderView
parse_packet pkt = do
  guard (leb (header_len + 16) (length pkt) && leb (length pkt) max_datagram)
  start ← get_range pkt 0 4
  guard (bytes_eq start magic)
  v ← get_elem? pkt 4
  guard (v == version)
  kind ← get_elem? pkt 5
  guard (contains kind_hello kind_probe kind)
  epoch ← get_range pkt 6 22
  session ← get_range pkt 22 38
  counter_bytes ← get_range pkt 38 46
  let counter = from_be counter_bytes
  guard (not (counter == 0))
  some (record {
    kind = kind;
    epoch = epoch;
    session = session;
    counter = counter;
    aad = take header_len pkt;
    ciphertext = drop header_len pkt;
  })

-- The 46 bytes in front of the ciphertext. The arrays have 16 bytes each.
abbrev pub header_bytes : ℕ → List ℕ → List ℕ → ℕ → List ℕ
header_bytes kind epoch session counter =
    magic ++ (version ∷ kind ∷ (epoch ++ (session ++ to_be 8 counter)))

pub assemble : ℕ → List ℕ → List ℕ → ℕ → List ℕ → Option (List ℕ)
assemble kind epoch session counter ct =
    if counter == 0 || ltb max_datagram (header_len + length ct)
    then none
    else some (header_bytes kind epoch session counter ++ ct)
