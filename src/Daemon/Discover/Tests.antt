-- ===== src/Daemon/Discover/Tests.antt =====
-- A search that one receiver answers, beside a stray datagram.
use remote_au.Common.{ℕ, ◌≡◌, refl, inr, List, [], ◌∷◌}
use remote_au.Crypto.Session.{discovery_key}
use remote_au.Crypto.Session.Tests.{toy, toy-Documented, token, token-parsed}
use remote_au.Daemon.Discover.{discover_toward, collect}
use remote_au.Daemon.Discover.Authentic.{Finds, discover_toward-Finds}
use remote_au.Daemon.Select.Tests.{template}
use remote_au.Discovery.Announce.{SignedQuery, encode_query, announce_body}
use remote_au.Discovery.Announce.RoundTrip.{respond_to_query-encode_query}
use remote_au.Discovery.Packet.{type_announce, sealed_bytes}
use remote_au.Discovery.Sources.{SocketAddr, Answer, dedup_prefer_direct}
use remote_au.Transport.Receiver.Engine.Tests.{id16, source}

abbrev q : SignedQuery
q =
    (respond_to_query-encode_query toy toy-Documented token token token-parsed [] id16 template tt
      refl).0

q_encoded : encode_query toy [] token id16 ≡ inr q
q_encoded =
    (respond_to_query-encode_query toy toy-Documented token token token-parsed [] id16 template tt
      refl).1

abbrev received : List (List ℕ × SocketAddr)
received =
    (1 ∷ 2 ∷ 3 ∷ [], source)
    ∷ (
      sealed_bytes toy type_announce id16 (announce_body template) (discovery_key toy token),
      source,
    )
    ∷ []

abbrev nodes : List Answer
nodes = dedup_prefer_direct (collect toy [] token q.challenge received)

nodes_found : discover_toward toy [] token id16 received ≡ inr nodes
unfolding discover_toward
nodes_found = rw (q_encoded, discover_toward) refl

discover_toward-Finds_example : Finds toy [] token q.challenge received nodes
discover_toward-Finds_example =
    discover_toward-Finds toy [] token id16 q received nodes q_encoded nodes_found
