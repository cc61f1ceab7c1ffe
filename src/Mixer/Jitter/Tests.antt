-- ===== src/Mixer/Jitter/Tests.antt =====
-- A small buffer of one-byte frames, two to a packet.
use remote_au.Common.{ℕ, ◌+◌, ◌≡◌, refl, true, false, some, List, [], ◌∷◌, length, min, ◌/◌, arith}
use remote_au.Mixer.Jitter.{JitterBuffer, new, push}
use remote_au.Mixer.Jitter.Valid.{Valid, new-Valid}
use remote_au.Mixer.Jitter.PushValid.{push-Valid}
use remote_au.Mixer.Jitter.Pull.{pull}
use remote_au.Mixer.Jitter.Pull.Round.{position}
use remote_au.Mixer.Jitter.Pull.Loop.{pull-Valid}

push-Valid_example : Valid (push (new 1 2) 5 (1 ∷ 2 ∷ []) 100).0
push-Valid_example = push-Valid (new 1 2) 5 100 (1 ∷ 2 ∷ []) (new-Valid 1 2) (omega arith)

-- Packet 5 is about to be played.
abbrev playing : JitterBuffer
playing = record (new 1 2) {
  slots = (5, record { pcm = 1 ∷ 2 ∷ []; arrived = 0 }) ∷ [];
  primed = true;
  started = true;
  play_seq = some 5;
}

playing-Valid : Valid playing
unfolding new
playing-Valid = record {
  shape = record {
    frame_size = omega arith;
    frame_count = omega arith;
    packet_size = refl;
    target_low = omega arith;
    target_high = omega arith;
    order = (omega arith, tt);
    words = (omega arith, tt);
    sizes = (refl, tt);
    inside = omega arith;
    playing = λ h. refl;
  };
  bounded = omega arith;
  near = (omega arith, (omega arith, tt));
}

abbrev silence : List ℕ
silence = 0 ∷ 0 ∷ 0 ∷ []

pull-Valid_example :
    let (q, out, frames) = pull playing silence 1 7 in
    Valid q
    × (frames ≡ min 1 (length silence / playing.bytes_per_frame))
    × (playing.primed ≡ true → q.starved ≡ false → position q ≡ position playing + frames)
    × (playing.primed ≡ false → q ≡ playing)
pull-Valid_example = pull-Valid playing silence 1 7 playing-Valid (omega arith)
