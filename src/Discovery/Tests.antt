-- ===== src/Discovery/Tests.antt =====
-- A query, its answer, and the choice between answers on concrete input.
use remote_au.Common.{
  ℕ, ◌≡◌, ◌||◌, refl, inr, none, List, [], ◌∷◌, length, replicate, bytes_eq, ◌==◌, if◌then◌else◌,
  arith,
}
use remote_au.Protocol.Wire.Names.{clip_name}
use remote_au.Crypto.Session.{ok}
use remote_au.Crypto.Session.Tests.{toy, toy-Documented, token, token-parsed}
use remote_au.Discovery.Announce.{
  Announce, SignedQuery, encode_query, encode_announce, respond_to_query,
}
use remote_au.Discovery.Announce.Parts.{IsAnnounce}
use remote_au.Discovery.Announce.RoundTrip.{respond_to_query-encode_query}
use remote_au.Discovery.Sources.{Answer, v4, dedup_prefer_direct}
use remote_au.Discovery.Sources.Choice.{Choice, dedup_prefer_direct-Choice}

abbrev id16 : List ℕ
id16 = replicate 16 9

abbrev template : Announce
template = record {
  tcp_port = 48001;
  instance_id = id16;
  advertised_addr = 192 ∷ 168 ∷ 2 ∷ 10 ∷ [];
  name = b'h' ∷ b'i' ∷ [];
  epoch = replicate 16 3;
}

template-IsAnnounce : IsAnnounce template
template-IsAnnounce = record {
  port = omega arith;
  port_bound = omega arith;
  instance = refl;
  epoch_bytes = refl;
  octets = refl;
  text = (refl, (refl, tt));
}

respond_to_query-encode_query_example :
    (q : SignedQuery) × (encode_query toy [] token id16 ≡ inr q)
    × (q.challenge ≡ id16)
    × (respond_to_query toy q.bytes token template ≡ (
        if length (clip_name []) == 0 || bytes_eq (clip_name []) template.name
        then ok (encode_announce toy template id16 token)
        else none))
respond_to_query-encode_query_example =
    respond_to_query-encode_query toy toy-Documented token token token-parsed [] id16 template tt
      refl

-- The same instance, heard over the network and over the loopback.
abbrev answers : List Answer
answers =
    (template, record { ip = v4 127 0 0 1; port = 1 })
    ∷ (template, record { ip = v4 10 0 0 1; port = 1 })
    ∷ (record template { instance_id = replicate 16 4 }, record { ip = v4 8 8 8 8; port = 1 })
    ∷ []

dedup_prefer_direct-Choice_example : Choice answers (dedup_prefer_direct answers)
dedup_prefer_direct-Choice_example = dedup_prefer_direct-Choice answers
