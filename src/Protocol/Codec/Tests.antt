-- ===== src/Protocol/Codec/Tests.antt =====
-- The codecs on concrete input.
use remote_au.Common.{ℕ, ◌<◌, ◌≡◌, refl, some, List, All, length, replicate, zero, suc, arith}
use remote_au.Common.Bytes.{IsByte}
use remote_au.Common.Int.{pos}
use remote_au.Protocol.Format.{max_pcm_chunk}
use remote_au.Protocol.Codec.Nibble.{Predictor}
use remote_au.Protocol.Codec.Stereo.{adpcm48_bytes, encode_adpcm_stereo, decode_adpcm_stereo}
use remote_au.Protocol.Codec.Stereo.Tracking.{
  first, predictions, decode_adpcm_stereo-encode_adpcm_stereo,
}
use remote_au.Protocol.Codec.Stereo.Sizes.{Decodes}
use remote_au.Protocol.Codec.Mono.{encode_canonical, decode_canonical}
use remote_au.Protocol.Codec.Mono.Sizes.{payload_bytes, decode_canonical-encode_canonical}

abbrev predictor : Predictor
predictor = record { pred = pos 100; index = 5 }

abbrev pcm : List ℕ
pcm = replicate 960 7

replicate-IsByte : (n b : ℕ) → b < 256 → All IsByte (replicate n b)
replicate-IsByte zero b h = tt
replicate-IsByte (suc n) b h = (h, replicate-IsByte n b h)

decode_adpcm_stereo-encode_adpcm_stereo_example :
    (length (encode_adpcm_stereo pcm) ≡ adpcm48_bytes)
    × (decode_adpcm_stereo (encode_adpcm_stereo pcm)
        ≡ some (predictions 240 0 pcm (first pcm 0) (first pcm 1)))
decode_adpcm_stereo-encode_adpcm_stereo_example =
    decode_adpcm_stereo-encode_adpcm_stereo pcm (replicate-IsByte 960 7 (omega arith))

decode_canonical-encode_canonical_example :
    (payload : List ℕ) × (encode_canonical 2 pcm ≡ some payload)
    × (length payload ≡ payload_bytes 2)
    × Decodes (decode_canonical 2 payload) max_pcm_chunk
decode_canonical-encode_canonical_example =
    decode_canonical-encode_canonical 2 pcm (omega arith) refl
