-- ===== src/Discovery/Announce/RoundTrip.antt =====
-- The exchange of a query and its answer, end to end.
use remote_au.Common.{
  ℕ, ◌≡◌, refl, ◌||◌, inr, Bool, true, false, ◌>>◌, guard, Option, none, some, List, [], length,
  bytes_eq, ◌==◌, if◌then◌else◌, ◌>>=◌, arith, le→ltb,
}
use remote_au.Common.Bytes.{get_range_parts, to_be, from_be-to_be}
use remote_au.Common.Utf8.{IsText, from_utf8-as_bytes}
use remote_au.Protocol.Wire.Names.{clip_name}
use remote_au.Protocol.Wire.Names.RoundTrip.{clip_name-IsText}
use remote_au.Crypto.Session.{Crates, Documented, ok, parse_invitation, discovery_key}
use remote_au.Discovery.Packet.{type_query, type_announce}
use remote_au.Discovery.Packet.RoundTrip.{open_signed-seal}
use remote_au.Discovery.Announce.{
  Announce, SignedQuery, query_body, announce_body, key_of, encode_query, encode_announce,
  open_query, respond_to_query, open_announce,
}
use remote_au.Discovery.Announce.Parts.{
  clipped, length-clipped, IsAnnounce, open_announce_of, size, body-instance, body-epoch, body-addr,
  body-len, body-name,
}

module _ (crates : Crates) (documented : Documented crates) (token t : List ℕ)
    (parsed : parse_invitation crates token ≡ inr t) where
  key_of-token : key_of crates token ≡ inr (discovery_key crates t)
  unfolding key_of
  key_of-token = rw (parsed, key_of) refl

  open_query-encode_query :
      (name challenge : List ℕ)
      → IsText name
      → length challenge ≡ 16
      → (q : SignedQuery) × (encode_query crates name token challenge ≡ inr q)
        × (q.challenge ≡ challenge)
        × (open_query crates q.bytes token ≡ some (challenge, clip_name name))
  unfolding encode_query open_query
  open_query-encode_query name challenge h c =
      let short = length-clipped name in
      let (packet, e, o) =
        open_signed-seal crates documented type_query challenge (query_body name) token t c
          (omega arith) parsed in
      (
        record { bytes = packet; challenge = challenge },
        rw (key_of-token, le→ltb 255 (length (clipped name)) (omega arith), e) refl,
        refl,
        rw o (ground (arith, from_utf8-as_bytes (clip_name name) (clip_name-IsText name h))),
      )

  -- Whatever announce a receiver of the group sends for a challenge opens, at the querier that holds the same token and challenge, to the announce with its name clipped to 64 bytes.
  pub open_announce-encode_announce :
      (a : Announce) (challenge : List ℕ)
      → IsAnnounce a
      → length challenge ≡ 16
      → (ok (encode_announce crates a challenge token) >>= λ packet.
          open_announce crates packet token challenge)
        ≡ some (record a { name = clip_name a.name })
  unfolding encode_announce
  open_announce-encode_announce a challenge h c =
      let short = length-clipped a.name in
      let (packet, e, o) =
        open_signed-seal crates documented type_announce challenge (announce_body a) token t c
          (omega (arith, size a h)) parsed in
      rw (key_of-token, nonzero, le→ltb 255 (length (clipped a.name)) (omega arith), e)
        (open_announce_of crates packet token challenge (announce_body a) (to_be 2 a.tcp_port)
          a.instance_id a.epoch a.advertised_addr (clipped a.name) (clip_name a.name) a.tcp_port o
          (size a h) (get_range_parts 0 2 [] (to_be 2 a.tcp_port) _ refl refl)
          (from_be-to_be 2 a.tcp_port h.port_bound) h.port (body-instance a h) (body-epoch a h)
          (body-addr a h) (body-len a h) (body-name a h)
          (from_utf8-as_bytes (clip_name a.name) (clip_name-IsText a.name h.text)))
    where
      nonzero : (a.tcp_port == 0) ≡ false
      nonzero = ground (arith, h.port)

  -- A receiver that gets a query answers it exactly when the query's clipped name is empty or its own name, and the answer is its announce for the query's challenge.
  pub respond_to_query-encode_query :
      (name challenge : List ℕ) (template : Announce)
      → IsText name
      → length challenge ≡ 16
      → (q : SignedQuery) × (encode_query crates name token challenge ≡ inr q)
        × (q.challenge ≡ challenge)
        × (respond_to_query crates q.bytes token template ≡ (
            if length (clip_name name) == 0 || bytes_eq (clip_name name) template.name
            then ok (encode_announce crates template challenge token)
            else none))
  unfolding respond_to_query
  respond_to_query-encode_query name challenge template h c =
      let (q, e, s, o) = open_query-encode_query name challenge h c in
      (
        q,
        e,
        s,
        rw o (answer (length (clip_name name) == 0 || bytes_eq (clip_name name) template.name) _),
      )
    where
      answer : (b : Bool) (o : Option (List ℕ)) → (guard b >> o) ≡ (if b then o else none)
      answer true o = refl
      answer false o = refl

  -- A querier that looks for any receiver, or for one whose whole name is the clipped name that is asked
  -- for, gets back that receiver's announce, the name clipped.
  pub open_announce-respond_to_query :
      (name challenge : List ℕ) (template : Announce)
      → IsText name
      → length challenge ≡ 16
      → IsAnnounce template
      → (length (clip_name name) == 0 || bytes_eq (clip_name name) template.name) ≡ true
      → (q : SignedQuery) × (encode_query crates name token challenge ≡ inr q)
        × ((respond_to_query crates q.bytes token template >>= λ packet.
              open_announce crates packet token q.challenge)
            ≡ some (record template { name = clip_name template.name }))
  open_announce-respond_to_query name challenge template h c a asked =
      let (q, e, s, o) = respond_to_query-encode_query name challenge template h c in
      (q, e, rw (s, o, asked) (open_announce-encode_announce template challenge a c))
