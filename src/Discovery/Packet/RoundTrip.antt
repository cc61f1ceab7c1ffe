-- ===== src/Discovery/Packet/RoundTrip.antt =====
-- Signing against opening (src/discovery/mod.rs).
use remote_au.Common.{
  ℕ, ◌+◌, ◌≤◌, ◌≡◌, refl, ap, ◌∙◌, inr, some, List, ◌∷◌, [], ◌++◌, length, drop, get_elem?, arith,
  length-append, drop_append_of, le→leb, le→ltb,
}
use remote_au.Common.Bytes.{get_range, get_range_parts}
use remote_au.Crypto.Session.{Crates, Documented, parse_invitation, discovery_key, mac16}
use remote_au.Crypto.Session.Laws.{length-mac16, mac_eq_refl}
use remote_au.Discovery.Packet.{
  discovery_magic, discovery_version, header_len, signed_bytes, sealed_bytes, seal, open_signed,
}
use mathlib.Core.List.{append_assoc}

module _ (crates : Crates) (documented : Documented crates) where
  -- A packet opens to what stands at its places.
  open_signed_of :
      (packet token t challenge mac : List ℕ) (kind : ℕ)
      → 38 ≤ length packet
      → length packet ≤ 512
      → get_range packet 0 4 ≡ some discovery_magic
      → get_elem? packet 4 ≡ some discovery_version
      → get_elem? packet 5 ≡ some kind
      → get_range packet 6 22 ≡ some challenge
      → get_range packet 22 38 ≡ some mac
      → parse_invitation crates token ≡ inr t
      → mac16 crates (discovery_key crates t) (signed_bytes kind challenge (drop 38 packet)) ≡ mac
      → open_signed crates packet token
        ≡ some (record { kind = kind; challenge = challenge; body = drop 38 packet })
  unfolding open_signed
  open_signed_of packet token t challenge mac kind l0 l1 m v k c s p e =
      rw (le→leb 38 _ l0, le→leb _ 512 l1, m, v, k, c, s, p, e, mac_eq_refl mac) refl

  module _ (kind : ℕ) (challenge body key : List ℕ) (h : length challenge ≡ 16) where
    abbrev mac : List ℕ
    mac = mac16 crates key (signed_bytes kind challenge body)

    abbrev packet : List ℕ
    packet = sealed_bytes crates kind challenge body key

    size : length packet ≡ header_len + length body
    size = omega (
      arith,
      h,
      length-append challenge (mac ++ body),
      length-append mac body,
      length-mac16 crates documented key (signed_bytes kind challenge body),
    )

    packet-challenge : get_range packet 6 22 ≡ some challenge
    packet-challenge =
        get_range_parts 6 22 (discovery_magic ++ (discovery_version ∷ kind ∷ [])) challenge
          (mac ++ body) refl (omega (arith, h))

    packet-mac : get_range packet 22 38 ≡ some mac
    packet-mac =
        get_range_parts 22 38 (discovery_magic ++ (discovery_version ∷ kind ∷ challenge)) mac body
          (omega (arith, h))
          (omega (arith, h, length-mac16 crates documented key (signed_bytes kind challenge body)))

    packet-body : drop 38 packet ≡ body
    packet-body = rw (← append_assoc challenge mac body) (
        drop_append_of 38 (discovery_magic ++ (discovery_version ∷ kind ∷ (challenge ++ mac))) body
          (omega (
            arith,
            h,
            length-append challenge mac,
            length-mac16 crates documented key (signed_bytes kind challenge body),
          )))

  -- A signed packet with a 16-byte challenge and a body of at most 474 bytes opens, under the token whose key signed it, to its kind, its challenge and its body.
  pub open_signed-seal :
      (kind : ℕ) (challenge body token t : List ℕ)
      → length challenge ≡ 16
      → length body ≤ 474
      → parse_invitation crates token ≡ inr t
      → (packet : List ℕ) × (seal crates kind challenge body (discovery_key crates t) ≡ inr packet)
        × (open_signed crates packet token
            ≡ some (record { kind = kind; challenge = challenge; body = body }))
  unfolding seal
  open_signed-seal kind challenge body token t h hb p =
      let fits : 38 + length body ≤ 512 = omega arith in
      let key = discovery_key crates t in
      let out = packet kind challenge body key h in
      let s = size kind challenge body key h in
      let b = packet-body kind challenge body key h in
      (
        out,
        rw (le→ltb 512 _ fits) refl,
        open_signed_of out token t challenge (mac kind challenge body key h) kind (omega (arith, s))
              (omega (arith, s)) (get_range_parts 0 4 [] discovery_magic _ refl refl) refl refl
              (packet-challenge kind challenge body key h) (packet-mac kind challenge body key h) p
              (rw b refl)
            ∙ ap (λ x. some (record { kind = kind; challenge = challenge; body = x })) b,
      )
