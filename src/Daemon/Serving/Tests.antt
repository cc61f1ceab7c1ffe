-- ===== src/Daemon/Serving/Tests.antt =====
-- A receiving daemon on concrete events.
use remote_au.Common.{ℕ, ◌≡◌, ◌⊎◌, refl, inr, some, List, [], ◌∷◌, arith, false}
use remote_au.Common.Bytes.{get_range}
use remote_au.Crypto.Session.Tests.{toy, toy-Documented, token, token-parsed}
use remote_au.Daemon.Discover.{taken}
use remote_au.Daemon.Select.Tests.{template}
use remote_au.Daemon.Serving.{
  ServerEvent, datagram, query, feedback_tick, expire_tick, ServerTurn, answer_to, by_answer,
  on_datagram, server_turn, serve_all,
}
use remote_au.Daemon.Serving.Answer.{discovered}
use remote_au.Daemon.Serving.Replay.{server_turn-again}
use remote_au.Discovery.Announce.{SignedQuery, encode_query, respond_to_query, open_query}
use remote_au.Discovery.Announce.Parts.{IsAnnounce}
use remote_au.Discovery.Packet.{open_signed}
use remote_au.Protocol.Wire.Names.{clip_name, clip_from}
use remote_au.Transport.Receiver.Engine.{State, with_history_cap}
use remote_au.Transport.Receiver.Engine.Spent.{Refused}
use remote_au.Transport.Receiver.Engine.Tests.{
  id16, micros, hundredths, identity, speaker, source, hello_packet, hello_view, hello_parses,
  hello_taken,
}

abbrev start : State micros hundredths
start = (with_history_cap micros id16 id16 8, speaker)

abbrev events : List ServerEvent
events =
    query (1 ∷ []) source
    ∷ datagram [] source 5 []
    ∷ feedback_tick 500000 500001
    ∷ expire_tick 600000
    ∷ []

abbrev hello_event : ServerEvent
hello_event = datagram hello_packet source 7 []

abbrev first : ServerTurn toy identity micros hundredths
first =
    server_turn toy identity micros hundredths token template
      (serve_all toy identity micros hundredths token template start []) hello_event

abbrev later : State micros hundredths
later = serve_all toy identity micros hundredths token template first.next events

server_turn-again_example :
    let again =
      (server_turn toy identity micros hundredths token template later
        (datagram hello_packet source 9 [])).next in
    (again ≡ later) ⊎ Refused micros later.0 later.1 again
server_turn-again_example =
    server_turn-again toy identity micros hundredths token template id16 id16 8 speaker [] events
      hello_packet hello_view source source 7 9 [] [] hello_parses
      (unfold serve_all server_turn on_datagram by_answer answer_to respond_to_query open_query
          open_signed get_range in
        refl)
      (unfold serve_all server_turn on_datagram by_answer answer_to respond_to_query open_query
          open_signed get_range with_history_cap in
        hello_taken)
      (λ h. cc) (tt, ((λ h. cc), (tt, (tt, tt))))

template-IsAnnounce : IsAnnounce template
template-IsAnnounce = record {
  port = omega arith;
  port_bound = omega arith;
  instance = refl;
  epoch_bytes = refl;
  octets = refl;
  text = (refl, (refl, tt));
}

discovered_example :
    (q : SignedQuery) × (answer : List ℕ) × (encode_query toy [] token id16 ≡ inr q)
    × (server_turn toy identity micros hundredths token template start (query q.bytes source)
        ≡ record { next = start; sent = (source, answer) ∷ []; left = false })
    × (server_turn toy identity micros hundredths token template start
          (datagram q.bytes source 5 [])
        ≡ record { next = start; sent = (source, answer) ∷ []; left = false })
    × (taken toy [] token q.challenge answer source
        ≡ some (record template { name = clip_name template.name }, source))
unfolding with_history_cap clip_name clip_from
discovered_example =
    discovered toy toy-Documented identity micros hundredths token token token-parsed template []
      id16 start source source 5 [] tt refl template-IsAnnounce refl refl
