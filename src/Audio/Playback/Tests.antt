-- ===== src/Audio/Playback/Tests.antt =====
-- A chunk for a concrete device.
use remote_au.Common.{◌≡◌, [], ◌∷◌, refl, arith}
use remote_au.Common.Int.{pos}
use remote_au.Audio.Playback.{fill_device_i16_from_session_i16}
use remote_au.Audio.Playback.Counts.{History, counted, counted_lem}
use remote_au.Protocol.Codec.Nibble.{i16_from_le}
use remote_au.Audio.Playback.Samples.{fill_device-samples, samples}

fill_device-samples_example :
    fill_device_i16_from_session_i16 (pos 0 ∷ pos 0 ∷ []) (1 ∷ 2 ∷ 255 ∷ 255 ∷ []) 2 2
    ≡ samples (1 ∷ 2 ∷ 255 ∷ 255 ∷ [])
fill_device-samples_example =
    fill_device-samples (1 ∷ 2 ∷ 255 ∷ 255 ∷ []) 2 (omega arith) (pos 0 ∷ pos 0 ∷ []) refl

-- The newest chunk first: 240 frames of silence after two sounding chunks and a silent one between.
abbrev chunks : History
chunks =
    (0 ∷ 0 ∷ [], 240)
    ∷ (0 ∷ 1 ∷ [], 96)
    ∷ (0 ∷ 0 ∷ [], 480)
    ∷ (1 ∷ 0 ∷ [], 240)
    ∷ (0 ∷ 0 ∷ [], 999)
    ∷ []

counted_lem_example :
    ((counted chunks).callbacks ≡ 5)
    × ((counted chunks).frames ≡ 2055)
    × ((counted chunks).nonzero ≡ 2)
    × ((counted chunks).silent_run ≡ 240)
    × ((counted chunks).max_silent_run ≡ 480)
unfolding i16_from_le
counted_lem_example = counted_lem chunks (omega arith) (omega arith)
