-- ===== src/Transport/Packet/Tests.antt =====
-- A concrete sealed packet.
use remote_au.Common.{ℕ, ◌≡◌, refl, some, List, [], ◌∷◌, replicate, ◌>>=◌, arith}
use remote_au.Crypto.Session.Tests.{toy, toy-Documented, direction}
use remote_au.Transport.Packet.{seal_packet, open_packet}
use remote_au.Transport.Packet.RoundTrip.{open_packet-seal_packet}

abbrev id16 : List ℕ
id16 = replicate 16 9

abbrev body : List ℕ
body = 1 ∷ 2 ∷ 3 ∷ []

open_packet-seal_packet_example :
    (seal_packet toy direction id16 id16 7 2 body >>= open_packet toy direction)
    ≡ some (record { kind = 2; epoch = id16; session = id16; counter = 7; body = body })
open_packet-seal_packet_example =
    open_packet-seal_packet toy toy-Documented direction id16 id16 7 2 body (omega arith)
      (omega arith) refl refl (omega arith) (omega arith) (omega arith)
