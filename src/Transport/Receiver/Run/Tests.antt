-- ===== src/Transport/Receiver/Run/Tests.antt =====
-- Concrete runs of the receiving engine.
use remote_au.Common.{◌≡◌, List, [], ◌∷◌}
use remote_au.Crypto.Session.Tests.{toy}
use remote_au.Transport.Receiver.Engine.{with_history_cap, handle_datagram}
use remote_au.Transport.Receiver.Engine.Moves.{SoundEngine}
use remote_au.Transport.Receiver.Engine.Spent.{Refused}
use remote_au.Transport.Receiver.Engine.Tests.{
  id16, micros, hundredths, identity, speaker, source, hello_packet, hello_view, hello_parses,
  hello_taken,
}
use remote_au.Transport.Receiver.Run.{Op, datagram, feedback, expiry, run, run-SoundEngine}
use remote_au.Transport.Receiver.Run.Replay.{run-Refused}

abbrev ops : List Op
ops = datagram hello_packet source 7 [] ∷ feedback 500000 500001 ∷ expiry 10 600000 ∷ []

run-SoundEngine_example :
    let out =
      (run toy identity micros hundredths (with_history_cap micros id16 id16 8, speaker) ops).0 in
    SoundEngine toy micros out × (out.token ≡ id16) × (out.history_cap ≡ 8)
run-SoundEngine_example = run-SoundEngine toy identity micros hundredths id16 id16 8 speaker ops

run-Refused_example :
    let s = run toy identity micros hundredths (with_history_cap micros id16 id16 8, speaker) [] in
    let taken = handle_datagram toy identity micros hundredths s.0 s.1 hello_packet source 7 [] in
    let t = run toy identity micros hundredths taken ops in
    Refused micros t.0 t.1
      (handle_datagram toy identity micros hundredths t.0 t.1 hello_packet source 9 [])
unfolding run with_history_cap
run-Refused_example =
    run-Refused toy identity micros hundredths id16 id16 8 speaker [] ops hello_packet hello_view
      source source 7 9 [] [] hello_parses hello_taken (λ h. cc) ((λ h. cc), (tt, (tt, tt)))
