-- ===== src/Transport/Sender/Tests.antt =====
-- A concrete run of the sender.
use remote_au.Common.{ℕ, refl, true, some, List, [], ◌∷◌, replicate, leb, arith}
use remote_au.Crypto.Session.{DirectionKeys}
use remote_au.Crypto.Session.Tests.{toy, direction}
use remote_au.Discovery.Sources.{SocketAddr, v4}
use remote_au.Transport.Adapt.State.{LossFloat}
use remote_au.Transport.Sender.{SenderEngine, new}
use remote_au.Transport.Sender.Nonces.{
  Op, say_hello, send_audio, probe_begin, receive, bind, Bound, Rising, run,
}
use remote_au.Transport.Sender.Nonces.Run.{run-Rising}

abbrev id16 : List ℕ
id16 = replicate 16 9

-- A loss in hundredths, rounded to none.
abbrev pub hundredths : LossFloat
hundredths = record {
  Float = ℕ;
  none_lost = 0;
  all_lost = 100;
  ratio = λ a b. 0;
  is_finite = λ x. true;
  clamp_unit = λ x. x;
  at_least = λ x n. leb n x;
}

abbrev keys : DirectionKeys
keys = record { sender_to_receiver = direction; receiver_to_sender = direction }

abbrev here : SocketAddr
here = record { ip = v4 192 168 2 10; port = 47001 }

abbrev engine : SenderEngine hundredths
engine = record (new toy hundredths id16 id16 (b'a' ∷ [])) {
  keys = some keys;
  epoch = some id16;
  counter = 3;
}

abbrev ops : List Op
ops =
    say_hello
    ∷ bind id16 here [] []
    ∷ send_audio (replicate 960 0) 5
    ∷ probe_begin
    ∷ receive [] 6
    ∷ say_hello
    ∷ []

engine-Bound : Bound toy hundredths keys id16 id16 engine
unfolding new
engine-Bound = record { has_keys = refl; has_epoch = refl; has_session = refl }

run-Rising_example : Rising toy hundredths keys id16 id16 3 (run toy hundredths engine ops)
run-Rising_example =
    run-Rising toy hundredths keys id16 id16 ops engine (tt, (refl, (tt, (tt, (tt, (tt, tt))))))
      engine-Bound (omega arith)
