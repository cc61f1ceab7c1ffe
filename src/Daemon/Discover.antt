-- ===== src/Daemon/Discover.antt =====
-- src/daemon/mod.rs: `discover_toward`, on the datagrams that its socket receives until its deadline.
pub mod Authentic
pub mod Tests
use remote_au.Common.{
  ℕ, Bool, true, false, ◌||◌, ◌==◌, ◌⊎◌, inl, inr, Option, none, some, List, [], ◌∷◌, ◌++◌, length,
  ltb, bytes_eq, if◌then◌else◌,
}
use remote_au.Crypto.Session.{Crates}
use remote_au.Discovery.Announce.{Announce, encode_query, open_announce}
use remote_au.Discovery.Packet.{DiscoveryError}
use remote_au.Discovery.Sources.{
  IpAddr, SocketAddr, Answer, directed_query_targets, dedup_prefer_direct,
}

-- Where the query is sent.
pub query_targets : List IpAddr → List SocketAddr → List SocketAddr
query_targets extra [] = directed_query_targets extra
query_targets extra (addr ∷ direct) = addr ∷ direct

module _ (crates : Crates) where
  -- The answer that opens, if its name fits.
  named : List ℕ → SocketAddr → Option Announce → Option Answer
  named query_name src none = none
  named query_name src (some announce) =
      if length query_name == 0 || bytes_eq announce.name query_name
      then some (announce, src)
      else none

  -- What a datagram adds to `found`.
  pub taken : List ℕ → List ℕ → List ℕ → List ℕ → SocketAddr → Option Answer
  taken query_name token challenge packet src =
      if length packet == 0 || ltb 512 (length packet)
      then none
      else named query_name src (open_announce crates packet token challenge)

  more : Option Answer → List Answer → List Answer
  more none found = found
  more (some answer) found = answer ∷ found

  pub collect : List ℕ → List ℕ → List ℕ → List (List ℕ × SocketAddr) → List Answer
  collect query_name token challenge [] = []
  collect query_name token challenge ((packet, src) ∷ received) =
      more (taken query_name token challenge packet src)
        (collect query_name token challenge received)

  -- The random challenge is an argument, and so is what arrives.
  pub discover_toward :
      List ℕ → List ℕ → List ℕ → List (List ℕ × SocketAddr) → DiscoveryError ⊎ List Answer
  discover_toward query_name token challenge received =
      elim (encode_query crates query_name token challenge) [
        | inl err ↦ inl err
        | inr query ↦ inr (dedup_prefer_direct (collect query_name token query.challenge received))
      ]
