-- ===== src/Discovery/Announce/Parts.antt =====
-- The parts of an announce's body.
use remote_au.Common.{
  ℕ, ◌+◌, ◌^◌, ◌≤◌, ◌<◌, ◌≡◌, refl, some, List, ◌∷◌, [], ◌++◌, length, get_elem?, arith,
  length-append, get_elem?_append_of, le→leb, bytes_eq_refl,
}
use remote_au.Common.Bytes.{get_range, get_range_parts, to_be, from_be}
use remote_au.Common.Utf8.{as_bytes, from_utf8, IsText}
use remote_au.Protocol.Wire.Names.{clip_name}
use remote_au.Protocol.Wire.Names.RoundTrip.{clip_name-Clips}
use remote_au.Crypto.Session.{Crates}
use remote_au.Discovery.Packet.{open_signed, type_announce}
use remote_au.Discovery.Announce.{Announce, announce_body, open_announce}
use mathlib.Core.List.{append_assoc, append-nil}

abbrev pub clipped : List ℕ → List ℕ
clipped name = as_bytes (clip_name name)

pub length-clipped : (name : List ℕ) → length (clipped name) ≤ 64
length-clipped name = omega (arith, (clip_name-Clips name).fits)

-- What the code's types say of an announce: a 16-bit port that is not 0, the arrays' lengths, a name of characters.
pub record IsAnnounce (a : Announce) : Type 0 where
  pub port : 0 < a.tcp_port
  pub port_bound : a.tcp_port < 2 ^ 16
  pub instance : length a.instance_id ≡ 16
  pub epoch_bytes : length a.epoch ≡ 16
  pub octets : length a.advertised_addr ≡ 4
  pub text : IsText a.name

-- A body opens to what stands at its places.
pub open_announce_of :
    (crates : Crates)
    (packet token challenge body word instance_id epoch advertised_addr name_bytes name : List ℕ)
    (port : ℕ)
    → open_signed crates packet token
      ≡ some (record { kind = type_announce; challenge = challenge; body = body })
    → length body ≡ 39 + length name_bytes
    → get_range body 0 2 ≡ some word
    → from_be word ≡ port
    → 0 < port
    → get_range body 2 18 ≡ some instance_id
    → get_range body 18 34 ≡ some epoch
    → get_range body 34 38 ≡ some advertised_addr
    → get_elem? body 38 ≡ some (length name_bytes)
    → get_range body 39 (39 + length name_bytes) ≡ some name_bytes
    → from_utf8 name_bytes ≡ some name
    → open_announce crates packet token challenge
      ≡ some (record {
        tcp_port = port;
        instance_id = instance_id;
        advertised_addr = advertised_addr;
        name = name;
        epoch = epoch;
      })
unfolding open_announce
open_announce_of crates packet token challenge body word instance_id epoch advertised_addr
      name_bytes name port o l w p p0 i e a n nb nm =
    rw o (
      rw
        (
          bytes_eq_refl challenge,
          le→leb 39 (length body) (omega (arith, l)),
          w,
          p,
          i,
          e,
          a,
          n,
          nb,
          nm,
        )
        (ground (arith, l)))

-- The parts of an announce's body stand at their places.
module _ (a : Announce) (h : IsAnnounce a) where
  abbrev named : List ℕ
  named = length (clipped a.name) ∷ clipped a.name

  pub size : length (announce_body a) ≡ 39 + length (clipped a.name)
  size = omega (
    arith,
    h.instance,
    h.epoch_bytes,
    h.octets,
    length-append a.instance_id (a.epoch ++ (a.advertised_addr ++ named)),
    length-append a.epoch (a.advertised_addr ++ named),
    length-append a.advertised_addr named,
  )

  abbrev port : List ℕ
  port = to_be 2 a.tcp_port

  abbrev front : List ℕ
  front = port ++ (a.instance_id ++ (a.epoch ++ a.advertised_addr))

  length-front : length front ≡ 38
  length-front = omega (
    arith,
    h.instance,
    h.epoch_bytes,
    h.octets,
    length-append a.instance_id (a.epoch ++ a.advertised_addr),
    length-append a.epoch a.advertised_addr,
  )

  in_front : front ++ named ≡ announce_body a
  in_front = simp append_assoc

  pub body-instance : get_range (announce_body a) 2 18 ≡ some a.instance_id
  body-instance =
      get_range_parts 2 18 port a.instance_id (a.epoch ++ (a.advertised_addr ++ named)) refl
        (omega (arith, h.instance))

  pub body-epoch : get_range (announce_body a) 18 34 ≡ some a.epoch
  body-epoch =
      get_range_parts 18 34 (port ++ a.instance_id) a.epoch (a.advertised_addr ++ named)
        (omega (arith, h.instance)) (omega (arith, h.instance, h.epoch_bytes))

  pub body-addr : get_range (announce_body a) 34 38 ≡ some a.advertised_addr
  body-addr = rw (← in_addr) (
      get_range_parts 34 38 (port ++ (a.instance_id ++ a.epoch)) a.advertised_addr named
        (omega (arith, h.instance, h.epoch_bytes, length-append a.instance_id a.epoch))
        (omega (arith, h.instance, h.epoch_bytes, h.octets, length-append a.instance_id a.epoch)))
    where
      in_addr :
          (port ++ (a.instance_id ++ a.epoch)) ++ (a.advertised_addr ++ named) ≡ announce_body a
      in_addr = simp append_assoc

  pub body-len : get_elem? (announce_body a) 38 ≡ some (length (clipped a.name))
  body-len =
      rw (← in_front)
        (get_elem?_append_of 38 front (clipped a.name) (length (clipped a.name)) length-front)

  pub body-name :
      get_range (announce_body a) 39 (39 + length (clipped a.name)) ≡ some (clipped a.name)
  body-name = rw (← in_name) (
      get_range_parts 39 (39 + length (clipped a.name)) (front ++ (length (clipped a.name) ∷ []))
        (clipped a.name) []
        (omega (arith, length-front, length-append front (length (clipped a.name) ∷ [])))
        (omega (arith, length-front, length-append front (length (clipped a.name) ∷ []))))
    where
      in_name :
          (front ++ (length (clipped a.name) ∷ [])) ++ (clipped a.name ++ []) ≡ announce_body a
      in_name = simp (append_assoc, append-nil)
