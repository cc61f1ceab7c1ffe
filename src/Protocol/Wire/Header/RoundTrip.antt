-- ===== src/Protocol/Wire/Header/RoundTrip.antt =====
-- `parse_packet` after `assemble`, and what a packet must be to parse.
use remote_au.Common.{
  ℕ, ◌+◌, ◌≤◌, ◌<◌, ◌^◌, ◌≡◌, refl, ap, ◌∙◌, some, List, [], ◌∷◌, ◌++◌, length, take, drop, arith,
  length-append, take_append_of, drop_append_of, le→leb, get_elem?, le→ltb, ◌>>=◌,
}
use remote_au.Common.Bytes.{to_be, from_be, get_range, length-to_be, from_be-to_be, get_range_parts}
use remote_au.Protocol.Wire.Header.{
  parse_packet, assemble, header_bytes, header_len, magic, version,
}
use mathlib.Core.List.{append_assoc}

-- A packet parses to what stands at its places.
parse_packet_of :
    (pkt : List ℕ) (kind counter : ℕ) (epoch session word : List ℕ)
    → 62 ≤ length pkt
    → length pkt ≤ 1200
    → get_range pkt 0 4 ≡ some magic
    → get_elem? pkt 4 ≡ some version
    → get_elem? pkt 5 ≡ some kind
    → 1 ≤ kind
    → kind ≤ 4
    → get_range pkt 6 22 ≡ some epoch
    → get_range pkt 22 38 ≡ some session
    → get_range pkt 38 46 ≡ some word
    → from_be word ≡ counter
    → 0 < counter
    → parse_packet pkt
      ≡ some (record {
        kind = kind;
        epoch = epoch;
        session = session;
        counter = counter;
        aad = take 46 pkt;
        ciphertext = drop 46 pkt;
      })
unfolding parse_packet
parse_packet_of pkt kind counter epoch session word l0 l1 m v k k1 k4 e s w c c0 =
    rw (le→leb 62 _ l0, le→leb _ 1200 l1, m, v, k, le→leb 1 _ k1, le→leb _ 4 k4, e, s, w, c)
      (ground arith)

module _ (kind counter : ℕ) (epoch session ct : List ℕ) where
  length-header_bytes :
      length epoch ≡ 16
      → length session ≡ 16
      → length (header_bytes kind epoch session counter) ≡ header_len
  length-header_bytes he hs = omega (
    arith,
    length-append epoch (session ++ to_be 8 counter),
    length-append session (to_be 8 counter),
    length-to_be 8 counter,
  )

  assemble-eq :
      0 < counter
      → header_len + length ct ≤ 1200
      → assemble kind epoch session counter ct
        ≡ some (header_bytes kind epoch session counter ++ ct)
  unfolding assemble
  assemble-eq c0 t1 = rw (le→ltb 1200 _ t1) (ground arith)

  slices :
      length epoch ≡ 16
      → length session ≡ 16
      → let pkt = header_bytes kind epoch session counter ++ ct in
        (get_range pkt 6 22 ≡ some epoch)
        × (get_range pkt 22 38 ≡ some session)
        × (get_range pkt 38 46 ≡ some (to_be 8 counter))
  slices he hs = (
    rw (append_assoc epoch (session ++ to_be 8 counter) ct)
        (get_range_parts 6 22 lead epoch ((session ++ to_be 8 counter) ++ ct) refl (omega arith)),
    rw (← from_session) (
        get_range_parts 22 38 (lead ++ epoch) session (to_be 8 counter ++ ct) (omega arith)
          (omega arith)),
    rw (← from_counter) (
        get_range_parts 38 46 (lead ++ (epoch ++ session)) (to_be 8 counter) ct
          (omega (arith, length-append epoch session))
          (omega (arith, length-append epoch session))),
  )
    where
      lead : List ℕ
      lead = magic ++ (version ∷ kind ∷ [])

      from_session :
          (lead ++ epoch) ++ (session ++ (to_be 8 counter ++ ct))
          ≡ header_bytes kind epoch session counter ++ ct
      from_session = simp append_assoc

      from_counter :
          (lead ++ (epoch ++ session)) ++ (to_be 8 counter ++ ct)
          ≡ header_bytes kind epoch session counter ++ ct
      from_counter = simp append_assoc

  -- A packet that `assemble` builds from a known kind, 16-byte identifiers, a nonzero 64-bit counter
  -- and a ciphertext of 16 to 1154 bytes parses to exactly those parts.
  pub parse_packet-assemble :
      1 ≤ kind
      → kind ≤ 4
      → length epoch ≡ 16
      → length session ≡ 16
      → 0 < counter
      → counter < 2 ^ 64
      → 16 ≤ length ct
      → header_len + length ct ≤ 1200
      → (assemble kind epoch session counter ct >>= parse_packet)
        ≡ some (record {
          kind = kind;
          epoch = epoch;
          session = session;
          counter = counter;
          aad = header_bytes kind epoch session counter;
          ciphertext = ct;
        })
  parse_packet-assemble k1 k4 he hs c0 c1 t0 t1 =
      let (e, w, c) = slices he hs in
      ap (λ o. o >>= parse_packet) (assemble-eq c0 t1)
      ∙ parse_packet_of pkt kind counter epoch session (to_be 8 counter) (omega (arith, size))
          (omega (arith, size)) (get_range_parts 0 4 [] magic (drop 4 pkt) refl refl) refl refl k1
          k4 e w c (from_be-to_be 8 counter c1) c0
      ∙ rw (
        take_append_of 46 head ct (length-header_bytes he hs),
        drop_append_of 46 head ct (length-header_bytes he hs),
      )
    where
      head : List ℕ
      head = header_bytes kind epoch session counter

      pkt : List ℕ
      pkt = head ++ ct

      size : length pkt ≡ 46 + length ct
      size = omega (arith, length-header_bytes he hs, length-append head ct)
