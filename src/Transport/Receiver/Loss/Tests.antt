-- ===== src/Transport/Receiver/Loss/Tests.antt =====
-- A jump of the sequence numbers.
use remote_au.Common.{◌≡◌, refl, [], ◌∷◌, arith}
use remote_au.Transport.Receiver.Loss.{
  Account, observe_audio_seq, note_received, settle, jump_to, count_range,
}
use remote_au.Transport.Receiver.Loss.Missing.{IsAccount, Final, observe_audio_seq-Final}

abbrev account : Account
account = record {
  received = 2;
  lost = 0;
  max_audio_seq = 2;
  loss_cursor = 1;
  seen_audio = (1, tt) ∷ (2, tt) ∷ [];
}

-- The jump to 200 makes 1 to 167 final, of which 165 were lost.
jumps : (observe_audio_seq account 200).lost ≡ 165
unfolding observe_audio_seq note_received settle jump_to count_range
jumps = refl

observe_audio_seq-Final_example :
    IsAccount (observe_audio_seq account 200)
    × Final (note_received account 200) 167 (observe_audio_seq account 200)
unfolding note_received
observe_audio_seq-Final_example =
    observe_audio_seq-Final account 200
      (record {
        received_fits = omega arith;
        lost_fits = omega arith;
        highest_fits = omega arith;
        seqs = (omega arith, (omega arith, tt));
      })
      (omega arith)
