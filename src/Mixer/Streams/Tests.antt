-- ===== src/Mixer/Streams/Tests.antt =====
-- A concrete run over two streams.
use remote_au.Common.{ℕ, true, List, [], ◌∷◌, arith}
use remote_au.Protocol.Format.{canonical}
use remote_au.Mixer.Streams.{GainFloat, new}
use remote_au.Mixer.Streams.Sound.{
  Op, ensure, packet, target_ms, gain, expire, Sound, run, run-Sound,
}

-- A gain in hundredths.
abbrev hundredths : GainFloat
hundredths = record { Float = ℕ; one = 100; is_finite = λ x. true; clamp_gain = λ x. x }

abbrev calls : List (Op hundredths)
calls =
    ensure (b'a' ∷ []) [] 1
    ∷ ensure (b'b' ∷ []) [] 2
    ∷ packet (b'a' ∷ []) 7 (1 ∷ []) 3
    ∷ target_ms (b'b' ∷ []) 80
    ∷ gain (b'a' ∷ []) 50
    ∷ expire 10 12
    ∷ []

run-Sound_example : Sound hundredths (run hundredths (new hundredths canonical) calls)
run-Sound_example =
    run-Sound hundredths canonical calls (tt, (tt, (omega arith, (tt, (tt, (tt, tt))))))
