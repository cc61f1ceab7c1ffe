-- ===== src/Protocol/Wire/Tests.antt =====
-- Packets and bodies on concrete input.
use remote_au.Common.{ℕ, ◌≡◌, refl, some, List, [], ◌∷◌, length, replicate, ◌>>=◌, arith}
use remote_au.Protocol.Wire.Header.{parse_packet, assemble, header_bytes}
use remote_au.Protocol.Wire.Header.RoundTrip.{parse_packet-assemble}
use remote_au.Protocol.Wire.Bodies.{
  AudioBody, FeedbackBody, ProbeBody, Steps, encode_feedback, decode_feedback,
}
use remote_au.Protocol.Wire.Bodies.RoundTrip.{decode_feedback-encode_feedback}

abbrev id16 : List ℕ
id16 = replicate 16 9

abbrev ct : List ℕ
ct = replicate 20 1

parse_packet-assemble_example :
    (assemble 2 id16 id16 77 ct >>= parse_packet)
    ≡ some (record {
      kind = 2;
      epoch = id16;
      session = id16;
      counter = 77;
      aad = header_bytes 2 id16 id16 77;
      ciphertext = ct;
    })
parse_packet-assemble_example =
    parse_packet-assemble 2 77 id16 id16 ct (omega arith) (omega arith) refl refl (omega arith)
      (omega arith) (omega arith) (omega arith)

abbrev audio : AudioBody
audio = record { seq = 300; send_ts_us = 70000; codec = 0; buffer_ms = 20; payload = 1 ∷ 2 ∷ [] }

abbrev probe : ProbeBody
probe = record { gen = 3; step = 4; send_ts_us = 70000; payload = 0 ∷ 0 ∷ [] }

abbrev bytes : Steps
bytes = record { s0 = 800; s1 = 1600; s2 = 0; s3 = 0; s4 = 0 }

abbrev feedback : FeedbackBody
feedback = record {
  echo_send_ts_us = 1;
  delay_us = 2;
  echo_seq = 3;
  received = 4;
  lost = 5;
  jitter_us = 6;
  underruns = 7;
  buffer_ms = 20;
  probe_gen = 9;
  probe_bytes = bytes;
  probe_recv_span_us = bytes;
}

decode_feedback-encode_feedback_example :
    (length (encode_feedback feedback) ≡ 82)
    × (decode_feedback (encode_feedback feedback) ≡ some feedback)
decode_feedback-encode_feedback_example = decode_feedback-encode_feedback feedback (record {
  echo_send_ts_us = omega arith;
  delay_us = omega arith;
  echo_seq = omega arith;
  received = omega arith;
  lost = omega arith;
  jitter_us = omega arith;
  underruns = omega arith;
  buffer_ms = omega arith;
  probe_gen = omega arith;
  probe_bytes = (omega arith, omega arith, omega arith, omega arith, omega arith);
  probe_recv_span_us = (omega arith, omega arith, omega arith, omega arith, omega arith);
})

-- A name with a character of two bytes.
abbrev name : List ℕ
name = b'a' ∷ 0xe9 ∷ []
