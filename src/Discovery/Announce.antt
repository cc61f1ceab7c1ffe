-- ===== src/Discovery/Announce.antt =====
-- src/discovery/mod.rs: queries, announces, and the answer to a query.
pub mod Parts
pub mod RoundTrip
pub mod Size
use remote_au.Common.{
  ℕ, ◌+◌, ◌⊎◌, inl, inr, ◌||◌, Bool, not, Option, none, some, List, [], ◌∷◌, ◌++◌, length, drop,
  get_elem?, bytes_eq, leb, ltb, ◌==◌, ◌&&◌, if◌then◌else◌, ◌>>=◌, ◌>>◌, guard,
}
use remote_au.Common.Bytes.{get_range, to_be, from_be}
use remote_au.Common.Utf8.{as_bytes, from_utf8}
use remote_au.Protocol.Wire.Names.{clip_name}
use remote_au.Crypto.Session.{Crates, ok, parse_invitation, discovery_key}
use remote_au.Discovery.Packet.{
  DiscoveryError, bad_token, name_too_long, missing_port, Signed, seal, open_signed, type_query,
  type_announce,
}

-- The address is its four octets.
pub record Announce : Type 0 where
  pub tcp_port : ℕ
  pub instance_id : List ℕ
  pub advertised_addr : List ℕ
  pub name : List ℕ
  pub epoch : List ℕ

pub record SignedQuery : Type 0 where
  pub bytes : List ℕ
  pub challenge : List ℕ

-- `?` on a `Result`.
abbrev try {ℓ} : {A B : Type ℓ} → DiscoveryError ⊎ A → (A → DiscoveryError ⊎ B) → DiscoveryError ⊎ B
try (inl e) f = inl e
try (inr x) f = f x

-- The body of a query: the length of the clipped name, and the name.
abbrev pub query_body : List ℕ → List ℕ
query_body name = length (as_bytes (clip_name name)) ∷ as_bytes (clip_name name)

abbrev pub announce_body : Announce → List ℕ
announce_body a =
    to_be 2 a.tcp_port
    ++ (a.instance_id
        ++ (a.epoch
            ++ (a.advertised_addr
                ++ (length (as_bytes (clip_name a.name)) ∷ as_bytes (clip_name a.name)))))

module _ (crates : Crates) where
  -- `discovery_key(&parse_invitation(token)?)`.
  pub key_of : List ℕ → DiscoveryError ⊎ List ℕ
  key_of token = elim (parse_invitation crates token) [
    | inl e ↦ inl bad_token
    | inr t ↦ inr (discovery_key crates t)
  ]

  -- The random challenge is an argument.
  unfoldable pub encode_query : List ℕ → List ℕ → List ℕ → DiscoveryError ⊎ SignedQuery
  encode_query name token challenge = try (key_of token) (λ key.
      if ltb 255 (length (as_bytes (clip_name name)))
      then inl name_too_long
      else try (seal crates type_query challenge (query_body name) key)
          (λ bytes. inr (record { bytes = bytes; challenge = challenge })))

  pub encode_announce : Announce → List ℕ → List ℕ → DiscoveryError ⊎ List ℕ
  encode_announce announce challenge token = try (key_of token) (λ key.
      if announce.tcp_port == 0
      then inl missing_port
      else if ltb 255 (length (as_bytes (clip_name announce.name)))
      then inl name_too_long
      else seal crates type_announce challenge (announce_body announce) key)

  -- The challenge and the name of a query.
  unfoldable pub open_query : List ℕ → List ℕ → Option (List ℕ × List ℕ)
  open_query packet token = do
    s ← open_signed crates packet token
    guard (s.kind == type_query)
    name_len ← get_elem? s.body 0
    guard (length s.body == 1 + name_len)
    name ← from_utf8 (drop 1 s.body)
    some (s.challenge, name)

  unfoldable pub respond_to_query : List ℕ → List ℕ → Announce → Option (List ℕ)
  respond_to_query packet token template = do
    (challenge, name) ← open_query packet token
    guard (length name == 0 || bytes_eq name template.name)
    ok (encode_announce template challenge token)

  unfoldable pub open_announce : List ℕ → List ℕ → List ℕ → Option Announce
  open_announce packet token challenge = do
    s ← open_signed crates packet token
    guard (s.kind == type_announce && bytes_eq s.challenge challenge && leb 39 (length s.body))
    port ← get_range s.body 0 2
    guard (not (from_be port == 0))
    instance_id ← get_range s.body 2 18
    epoch ← get_range s.body 18 34
    advertised_addr ← get_range s.body 34 38
    name_len ← get_elem? s.body 38
    guard (length s.body == 39 + name_len)
    name_bytes ← get_range s.body 39 (39 + name_len)
    name ← from_utf8 name_bytes
    some (record {
      tcp_port = from_be port;
      instance_id = instance_id;
      advertised_addr = advertised_addr;
      name = name;
      epoch = epoch;
    })
