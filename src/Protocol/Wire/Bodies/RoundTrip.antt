-- ===== src/Protocol/Wire/Bodies/RoundTrip.antt =====
-- Bodies read back from the wire (src/protocol/wire.rs).
use remote_au.Common.{
  ◌∙◌, ap, inl, inr, List, ◌∷◌, ◌++◌, ltb, ℕ, Bool-cases, length-append, ◌+◌, ◌≤◌, ◌<◌, ◌^◌, ◌≡◌,
  refl, some, length, arith, ◌>>=◌, take-length,
}
use remote_au.Common.Bytes.{to_be, length-to_be, from_be-to_be, get_range}
use remote_au.Protocol.Format.{max_datagram}
use remote_au.Protocol.Wire.Bodies.{
  AudioBody, FeedbackBody, ProbeBody, encode_audio, decode_audio, encode_feedback, decode_feedback,
  encode_probe, decode_probe, AudioFits, FeedbackFits,
}

-- A body whose fields fit their words and whose payload fits the datagram with the 19 bytes in front
-- of it is read back unchanged.
pub decode_audio-encode_audio :
    (b : AudioBody)
    → AudioFits b
    → 19 + length b.payload ≤ 1200
    → (encode_audio b >>= decode_audio) ≡ some b
unfolding encode_audio decode_audio get_range
decode_audio-encode_audio b fits small = ground (
  arith,
  from_be-to_be 8 b.seq,
  from_be-to_be 8 b.send_ts_us,
  from_be-to_be 2 b.buffer_ms,
  take-length b.payload,
)

-- A probe body of a step up to 4, with fields that fit their words and a payload of up to 1000 bytes,
-- is read back unchanged.
pub decode_probe-encode_probe :
    (b : ProbeBody)
    → b.gen < 2 ^ 32
    → b.send_ts_us < 2 ^ 64
    → b.step ≤ 4
    → length b.payload ≤ 1000
    → (encode_probe b >>= decode_probe) ≡ some b
unfolding encode_probe decode_probe get_range
decode_probe-encode_probe b g t s p =
    ground (arith, from_be-to_be 4 b.gen, from_be-to_be 8 b.send_ts_us, take-length b.payload)

-- A feedback body whose fields fit their words has 82 bytes and is read back unchanged.
pub decode_feedback-encode_feedback :
    (b : FeedbackBody)
    → FeedbackFits b
    → (length (encode_feedback b) ≡ 82) × (decode_feedback (encode_feedback b) ≡ some b)
unfolding encode_feedback decode_feedback get_range
decode_feedback-encode_feedback b fits = (
  refl,
  ground (
    arith,
    from_be-to_be 8 b.echo_send_ts_us,
    from_be-to_be 4 b.delay_us,
    from_be-to_be 8 b.echo_seq,
    from_be-to_be 4 b.received,
    from_be-to_be 4 b.lost,
    from_be-to_be 4 b.jitter_us,
    from_be-to_be 4 b.underruns,
    from_be-to_be 2 b.buffer_ms,
    from_be-to_be 4 b.probe_gen,
    from_be-to_be 4 b.probe_bytes.s0,
    from_be-to_be 4 b.probe_bytes.s1,
    from_be-to_be 4 b.probe_bytes.s2,
    from_be-to_be 4 b.probe_bytes.s3,
    from_be-to_be 4 b.probe_bytes.s4,
    from_be-to_be 4 b.probe_recv_span_us.s0,
    from_be-to_be 4 b.probe_recv_span_us.s1,
    from_be-to_be 4 b.probe_recv_span_us.s2,
    from_be-to_be 4 b.probe_recv_span_us.s3,
    from_be-to_be 4 b.probe_recv_span_us.s4,
  ),
)

pub length-encode_audio :
    (b : AudioBody) (body : List ℕ)
    → encode_audio b ≡ some body
    → length body ≡ 19 + length b.payload
unfolding encode_audio
length-encode_audio b body h = elim (Bool-cases (ltb max_datagram (length b.payload))) [
  | inl big ↦ absurd (let a = simp big at h in cc)
  | inr small ↦
      let same = simp small at h in
      let sizes : length (
            to_be 8 b.seq
            ++ (to_be 8 b.send_ts_us ++ (b.codec ∷ (to_be 2 b.buffer_ms ++ b.payload))))
          ≡ 19 + length b.payload =
        omega (
          arith,
          length-append (to_be 8 b.seq)
              (to_be 8 b.send_ts_us ++ (b.codec ∷ (to_be 2 b.buffer_ms ++ b.payload))),
          length-append (to_be 8 b.send_ts_us) (b.codec ∷ (to_be 2 b.buffer_ms ++ b.payload)),
          length-append (to_be 2 b.buffer_ms) b.payload,
          length-to_be 8 b.seq,
          length-to_be 8 b.send_ts_us,
          length-to_be 2 b.buffer_ms,
        ) in
      ap length (
        let e : body
            ≡ to_be 8 b.seq
              ++ (to_be 8 b.send_ts_us ++ (b.codec ∷ (to_be 2 b.buffer_ms ++ b.payload))) =
          cc in
        e)
      ∙ sizes
]
