-- ===== src/Daemon/Select/Tests.antt =====
-- A sender that names its receiver's address.
use remote_au.Common.{◌≡◌, All, Option, none, some, List, [], ◌∷◌, ℕ}
use remote_au.Daemon.Select.{target_of, direct_sockets, choose_peer, ChosenPeer}
use remote_au.Daemon.Select.Choice.{FirstWanted, choose_peer-Wants}
use remote_au.Daemon.Select.Wants.{Wants}
use remote_au.Discovery.Announce.{Announce}
use remote_au.Discovery.Sources.{SocketAddr, Answer}
use remote_au.Transport.Receiver.Engine.Tests.{id16, source}

abbrev pub template : Announce
template = record {
  tcp_port = 47001;
  instance_id = id16;
  advertised_addr = 192 ∷ 168 ∷ 2 ∷ 10 ∷ [];
  name = b'h' ∷ b'i' ∷ [];
  epoch = id16;
}

abbrev to_source : List ℕ → Option SocketAddr
to_source text = some source

-- A receiver of another name answers first.
abbrev answers : List Answer
answers =
    (record template { name = b'h' ∷ b'o' ∷ [] }, source)
    ∷ (template, source)
    ∷ (template, source)
    ∷ []

abbrev to : Option (List ℕ)
to = some (b'x' ∷ [])

abbrev peer : Option (List ℕ)
peer = some (b'h' ∷ b'i' ∷ [])

choose_peer-Wants_example :
    let wanted = target_of to_source to peer in
    let out = choose_peer (direct_sockets wanted.ips wanted.port) wanted answers in
    (out ≡ none → All (λ answer. ¬ Wants to_source to peer answer) answers)
    × ((c : ChosenPeer) → out ≡ some c → FirstWanted to_source to peer answers c)
choose_peer-Wants_example = choose_peer-Wants to_source to peer answers
