-- ===== src/Protocol/Format/Tests.antt =====
-- The format and the splitter on concrete input.
use remote_au.Common.{◌≡◌, refl, [], ◌∷◌}
use remote_au.Protocol.Format.{AudioFormat, require_wire, err, split_pcm, chunks}

abbrev mono : AudioFormat
mono = record { sample_rate = 48000; channels = 1; frame_samples = 240 }

mono_refused : require_wire mono ≡ err mono
unfolding require_wire
mono_refused = refl

five_split : split_pcm (1 ∷ 2 ∷ 3 ∷ 4 ∷ 5 ∷ []) ≡ (1 ∷ 2 ∷ 3 ∷ 4 ∷ []) ∷ []
unfolding split_pcm chunks
five_split = refl
