-- ===== src/Protocol/Wire/Bodies.antt =====
-- src/protocol/wire.rs: the audio, feedback and probe bodies.
pub mod RoundTrip
use remote_au.Common.{
  ℕ, ◌+◌, ◌≤◌, ◌<◌, ◌^◌, ◌≡◌, Option, none, some, List, [], ◌∷◌, ◌++◌, length, drop, get_elem?, ltb,
  leb, ◌==◌, ◌||◌, ◌&&◌, not, if◌then◌else◌, ◌>>=◌, ◌>>◌, guard, All,
}
use remote_au.Common.Bytes.{to_be, from_be, get_range}
use remote_au.Protocol.Format.{max_datagram}

abbrev pub audio_prefix : ℕ
audio_prefix = 19

pub record AudioBody : Type 0 where
  pub seq : ℕ
  pub send_ts_us : ℕ
  pub codec : ℕ
  pub buffer_ms : ℕ
  pub payload : List ℕ

-- The `[u32; 5]` of a probe's five steps.
pub record Steps : Type 0 where
  pub s0 : ℕ
  pub s1 : ℕ
  pub s2 : ℕ
  pub s3 : ℕ
  pub s4 : ℕ

pub record FeedbackBody : Type 0 where
  pub echo_send_ts_us : ℕ
  pub delay_us : ℕ
  pub echo_seq : ℕ
  pub received : ℕ
  pub lost : ℕ
  pub jitter_us : ℕ
  pub underruns : ℕ
  pub buffer_ms : ℕ
  pub probe_gen : ℕ
  pub probe_bytes : Steps
  pub probe_recv_span_us : Steps

pub record ProbeBody : Type 0 where
  pub gen : ℕ
  pub step : ℕ
  pub send_ts_us : ℕ
  pub payload : List ℕ

pub encode_audio : AudioBody → Option (List ℕ)
encode_audio b =
    if ltb max_datagram (length b.payload)
    then none
    else some
        (to_be 8 b.seq ++ (to_be 8 b.send_ts_us ++ (b.codec ∷ (to_be 2 b.buffer_ms ++ b.payload))))

pub decode_audio : List ℕ → Option AudioBody
decode_audio body = do
  guard (leb audio_prefix (length body) && leb (length body) max_datagram)
  payload ← get_range body audio_prefix (length body)
  seq ← get_range body 0 8
  ts ← get_range body 8 16
  codec ← get_elem? body 16
  buffer ← get_range body 17 19
  some (record {
    seq = from_be seq;
    send_ts_us = from_be ts;
    codec = codec;
    buffer_ms = from_be buffer;
    payload = payload;
  })

abbrev pub feedback_body_len : ℕ
feedback_body_len = 82

steps_to_be : Steps → List ℕ
steps_to_be p = to_be 4 p.s0 ++ (to_be 4 p.s1 ++ (to_be 4 p.s2 ++ (to_be 4 p.s3 ++ to_be 4 p.s4)))

-- The loop that fills the array from the words at `o`, `o + 4`, ….
steps_at : List ℕ → ℕ → Option Steps
steps_at body o = do
  b0 ← get_range body o (o + 4)
  b1 ← get_range body (o + 4) (o + 8)
  b2 ← get_range body (o + 8) (o + 12)
  b3 ← get_range body (o + 12) (o + 16)
  b4 ← get_range body (o + 16) (o + 20)
  some (record {
    s0 = from_be b0;
    s1 = from_be b1;
    s2 = from_be b2;
    s3 = from_be b3;
    s4 = from_be b4;
  })

pub encode_feedback : FeedbackBody → List ℕ
unfolding steps_to_be
encode_feedback b =
    to_be 8 b.echo_send_ts_us
    ++ (to_be 4 b.delay_us
        ++ (to_be 8 b.echo_seq
            ++ (to_be 4 b.received
                ++ (to_be 4 b.lost
                    ++ (to_be 4 b.jitter_us
                        ++ (to_be 4 b.underruns
                            ++ (to_be 2 b.buffer_ms
                                ++ (to_be 4 b.probe_gen
                                    ++ (steps_to_be b.probe_bytes
                                        ++ steps_to_be b.probe_recv_span_us)))))))))

pub decode_feedback : List ℕ → Option FeedbackBody
unfolding steps_at
decode_feedback body = do
  guard (length body == feedback_body_len)
  probe_bytes ← steps_at body 42
  spans ← steps_at body 62
  echo_ts ← get_range body 0 8
  delay ← get_range body 8 12
  echo_seq ← get_range body 12 20
  received ← get_range body 20 24
  lost ← get_range body 24 28
  jitter ← get_range body 28 32
  underruns ← get_range body 32 36
  buffer ← get_range body 36 38
  gen ← get_range body 38 42
  some (record {
    echo_send_ts_us = from_be echo_ts;
    delay_us = from_be delay;
    echo_seq = from_be echo_seq;
    received = from_be received;
    lost = from_be lost;
    jitter_us = from_be jitter;
    underruns = from_be underruns;
    buffer_ms = from_be buffer;
    probe_gen = from_be gen;
    probe_bytes = probe_bytes;
    probe_recv_span_us = spans;
  })

pub encode_probe : ProbeBody → Option (List ℕ)
encode_probe b =
    if ltb 1000 (length b.payload) || ltb 4 b.step
    then none
    else some (to_be 4 b.gen ++ (b.step ∷ (to_be 8 b.send_ts_us ++ b.payload)))

pub decode_probe : List ℕ → Option ProbeBody
decode_probe body = do
  guard (leb 13 (length body) && leb (length body) (13 + 1000))
  step ← get_elem? body 4
  guard (leb step 4)
  gen ← get_range body 0 4
  ts ← get_range body 5 13
  payload ← get_range body 13 (length body)
  some (record { gen = from_be gen; step = step; send_ts_us = from_be ts; payload = payload })

abbrev pub AudioFits : AudioBody → Type 0
AudioFits b = (b.seq < 2 ^ 64) × (b.send_ts_us < 2 ^ 64) × (b.buffer_ms < 2 ^ 16)

abbrev pub StepsFit : Steps → Type 0
StepsFit p = (p.s0 < 2 ^ 32) × (p.s1 < 2 ^ 32) × (p.s2 < 2 ^ 32) × (p.s3 < 2 ^ 32) × (p.s4 < 2 ^ 32)

-- Every field fits its word.
pub record FeedbackFits (b : FeedbackBody) : Type 0 where
  pub echo_send_ts_us : b.echo_send_ts_us < 2 ^ 64
  pub delay_us : b.delay_us < 2 ^ 32
  pub echo_seq : b.echo_seq < 2 ^ 64
  pub received : b.received < 2 ^ 32
  pub lost : b.lost < 2 ^ 32
  pub jitter_us : b.jitter_us < 2 ^ 32
  pub underruns : b.underruns < 2 ^ 32
  pub buffer_ms : b.buffer_ms < 2 ^ 16
  pub probe_gen : b.probe_gen < 2 ^ 32
  pub probe_bytes : StepsFit b.probe_bytes
  pub probe_recv_span_us : StepsFit b.probe_recv_span_us
