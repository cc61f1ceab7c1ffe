-- ===== src/Protocol/Wire/Names.antt =====
-- src/protocol/wire.rs: `clip_name` and the hello body. A name is its list of code points.
pub mod RoundTrip
use remote_au.Common.{
  ℕ, ◌+◌, ◌≤◌, ◌<◌, ◌≡◌, Option, none, some, List, [], ◌∷◌, ◌++◌, length, drop, get_elem?, ltb, leb,
  ◌==◌, ◌&&◌, if◌then◌else◌, ◌>>=◌, ◌>>◌, guard,
}
use remote_au.Common.Bytes.{get_range}
use remote_au.Common.Utf8.{encode_utf8, as_bytes, from_utf8}

-- The loop of `clip_name`, over the characters left and the bytes pushed so far.
unfoldable pub clip_from : ℕ → List ℕ → List ℕ
clip_from used [] = []
clip_from used (c ∷ cs) =
    let size = length (encode_utf8 c) in
    let rest = clip_from (used + size) cs in if ltb 64 (used + size) then [] else c ∷ rest

unfoldable pub clip_name : List ℕ → List ℕ
unfolding clip_from
clip_name = clip_from 0

pub encode_hello : List ℕ → Option (List ℕ)
encode_hello name =
    let name = as_bytes (clip_name name) in
    if ltb 64 (length name) then none else some (length name ∷ name)

unfoldable pub decode_hello : List ℕ → Option (List ℕ)
decode_hello body = do
  n ← get_elem? body 0
  guard (length body == 1 + n && leb n 64)
  name ← get_range body 1 (1 + n)
  from_utf8 name
