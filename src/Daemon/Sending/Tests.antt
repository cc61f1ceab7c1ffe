-- ===== src/Daemon/Sending/Tests.antt =====
-- A concrete run of the sending loop.
use remote_au.Common.{ℕ, refl, none, some, List, [], ◌∷◌, replicate, arith}
use remote_au.Crypto.Session.{derive}
use remote_au.Crypto.Session.Tests.{toy}
use remote_au.Daemon.Select.{Wanted, ChosenPeer}
use remote_au.Daemon.Sending.{
  Sending, Event, hello_due, probe_due, audio_due, datagram, verified, verify_due, begin_train,
  begin_sending,
}
use remote_au.Daemon.Sending.Nonces.{packets_of, packets_of-Rising}
use remote_au.Daemon.Sending.Steady.{Steady}
use remote_au.Transport.Receiver.Engine.Tests.{id16, source}
use remote_au.Transport.Sender.{SenderEngine, new, begin_probe}
use remote_au.Transport.Sender.Nonces.{Bound, Rising}
use remote_au.Transport.Sender.Tests.{hundredths}

abbrev engine : SenderEngine hundredths
engine = record (new toy hundredths id16 id16 (b'a' ∷ [])) {
  keys = some (derive toy id16 id16 id16);
  epoch = some id16;
  counter = 3;
  addr = some source;
}

abbrev chosen : ChosenPeer
chosen = record { epoch = id16; addr = source; name = b'h' ∷ b'i' ∷ []; instance_id = id16 }

abbrev wanted : Wanted
wanted = record { ips = []; port = none; name = none }

abbrev start : Sending hundredths
start = begin_sending toy hundredths engine chosen 0

abbrev events : List (ℕ × Event)
events =
    (0, probe_due 10)
    ∷ (11, audio_due (replicate 960 0) 20)
    ∷ (21, datagram [] 30)
    ∷ (31, hello_due 1000000)
    ∷ (1000001, verify_due 2000000)
    ∷ (2000001, verified (some []) 2000100)
    ∷ []

start-Bound : Bound toy hundredths (derive toy id16 id16 id16) id16 id16 start.engine
unfolding new begin_sending begin_train begin_probe
start-Bound = record { has_keys = refl; has_epoch = refl; has_session = refl }

packets_of-Rising_example :
    Rising toy hundredths
      (derive toy id16 id16 id16)
      id16
      id16
      start.engine.counter
      (packets_of toy hundredths (derive toy id16 id16 id16) id16 id16 wanted [] id16 start events)
packets_of-Rising_example =
    packets_of-Rising toy hundredths (derive toy id16 id16 id16) id16 id16 wanted [] id16 events
      start start-Bound (unfold new begin_sending begin_train begin_probe in omega arith)

abbrev tick : Event
tick = hello_due 1000000
