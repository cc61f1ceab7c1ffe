-- ===== src/Mixer/Pull/Tests.antt =====
-- A call of the playback callback on one stream.
use remote_au.Common.{ℕ, ◌/◌, [], ◌∷◌, length, replicate, min, false, arith}
use remote_au.Common.Int.{ℤ, pos}
use remote_au.Mixer.Jitter.{new}
use remote_au.Mixer.Jitter.Valid.{new-Valid}
use remote_au.Mixer.Pull.{MixFloat, pull}
use remote_au.Mixer.Pull.Kept.{Calls, pull-Calls}
use remote_au.Mixer.Streams.{Mixer}
use remote_au.Mixer.Streams.Sound.{Sound}
use remote_au.Protocol.Format.{bytes_per_frame}
use remote_au.Transport.Receiver.Engine.Tests.{hundredths, speaker}

-- The last sample is played.
abbrev last_one : MixFloat hundredths
last_one = record { Sum = ℤ; silence = pos 0; add = λ s x gain. x; to_i16 = λ s gain. s }

abbrev playing : Mixer hundredths
playing = record speaker {
  streams =
      record { id = b'a' ∷ []; name = []; gain = 100; last_seen = 0; buffer = new 4 240 } ∷ [];
}

playing-Sound : Sound hundredths playing
playing-Sound = record { few = omega arith; distinct = (tt, tt); buffered = (new-Valid 4 240, tt) }

pull-Calls_example :
    Calls hundredths last_one playing
      (replicate 20 9)
      (min 4 (length (replicate {A = ℕ} 20 9) / bytes_per_frame playing.format))
      (pull hundredths last_one playing [] (replicate 20 9) 4 5 false)
pull-Calls_example =
    pull-Calls hundredths last_one playing [] (replicate 20 9) 4 5 false playing-Sound
      ((unfold new in omega arith), tt)
