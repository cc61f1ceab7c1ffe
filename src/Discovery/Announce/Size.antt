-- ===== src/Discovery/Announce/Size.antt =====
-- The size of queries and announces that are opened (src/discovery/mod.rs).
use remote_au.Common.{ℕ, ◌≡◌, some, List, >>=-eq-some}
use remote_au.Crypto.Session.{Crates}
use remote_au.Discovery.Announce.{Announce, open_query, respond_to_query, open_announce}
use remote_au.Discovery.Packet.Size.{Sized, opened-Sized}

module _ (crates : Crates) where
  pub open_announce-Sized :
      (packet token challenge : List ℕ) (a : Announce)
      → open_announce crates packet token challenge ≡ some a
      → Sized packet
  unfolding open_announce
  open_announce-Sized packet token challenge a h = opened-Sized crates packet token _ a h

  open_query-Sized :
      (packet token : List ℕ) (q : List ℕ × List ℕ)
      → open_query crates packet token ≡ some q
      → Sized packet
  unfolding open_query
  open_query-Sized packet token q h = opened-Sized crates packet token _ q h

  pub respond_to_query-Sized :
      (packet token : List ℕ) (template : Announce) (answer : List ℕ)
      → respond_to_query crates packet token template ≡ some answer
      → Sized packet
  unfolding respond_to_query
  respond_to_query-Sized packet token template answer h =
      let (q, opened, _) = >>=-eq-some (open_query crates packet token) _ h in
      open_query-Sized packet token q opened
