-- ===== src/Transport/Sender.antt =====
-- src/transport/sender.rs: the sending engine. Its random session is an argument of `new`, and the clock one of the operations.
pub mod Nonces
pub mod Packets
pub mod Feedback
pub mod Address
pub mod Tests
use remote_au.Common.{
  ℕ, ◌+◌, ◌-◌, ◌/◌, ◌%◌, ◌^◌, Bool, true, false, not, ◌||◌, ◌&&◌, Option, none, some, List, [], ◌∷◌,
  length, replicate, min, max, bytes_eq, leb, ltb, ◌==◌, if◌then◌else◌, ◌>>=◌, sat_add, u64_max,
  u32_max, u16_max,
}
use remote_au.Protocol.Wire.Header.{kind_hello, kind_audio, kind_feedback, kind_probe}
use remote_au.Protocol.Wire.Names.{encode_hello}
use remote_au.Protocol.Wire.Bodies.{
  AudioBody, Steps, FeedbackBody, ProbeBody, encode_audio, encode_probe, decode_feedback,
}
use remote_au.Protocol.Codec.Mono.{encode_canonical}
use remote_au.Crypto.Replay.{ReplayWindow, commit}
use remote_au.Crypto.Session.{Crates, DirectionKeys, derive}
use remote_au.Discovery.Sources.{SocketAddr}
use remote_au.Transport.Adapt.Probe.{Profile, codec, TimedStep, highest_sustainable_step_timed}
use remote_au.Transport.Adapt.State.{LossFloat, PathSample, AdaptState, start, apply_floor, observe}
use remote_au.Transport.Packet.{Opened, seal_packet, open_packet}

abbrev pub no_steps : Steps
no_steps = record { s0 = 0; s1 = 0; s2 = 0; s3 = 0; s4 = 0 }

-- The five steps, indexed.
abbrev pub step_at : Steps → ℕ → ℕ
step_at s i =
    if i == 0
    then s.s0
    else if i == 1
    then s.s1
    else if i == 2
    then s.s2
    else if i == 3
    then s.s3
    else s.s4

abbrev pub with_step : Steps → ℕ → ℕ → Steps
with_step s i v =
    if i == 0
    then record s { s0 = v }
    else if i == 1
    then record s { s1 = v }
    else if i == 2
    then record s { s2 = v }
    else if i == 3
    then record s { s3 = v }
    else if i == 4
    then record s { s4 = v }
    else s

pub span_us : ℕ → ℕ → ℕ
span_us first last =
    if first == 0 then 0 else if leb last first then u32_max else max (min (last - first) u32_max) 1

pub record SenderEngine (f : LossFloat) : Type 0 where
  pub token : List ℕ
  pub session : List ℕ
  pub name : List ℕ
  pub keys : Option DirectionKeys
  pub epoch : Option (List ℕ)
  pub addr : Option SocketAddr
  pub peer_name : List ℕ
  pub instance_id : Option (List ℕ)
  pub counter : ℕ
  pub replay : ReplayWindow
  pub audio_seq : ℕ
  pub adapt : AdaptState
  pub last_recv : ℕ
  pub last_lost : ℕ
  pub last_underruns : ℕ
  pub rtt_us : ℕ
  pub jitter_us : ℕ
  pub loss : f.Float
  pub goodput_bps : ℕ
  pub probe_bytes : Steps
  pub probe_recv_span_us : Steps
  pub probe_send_first_us : Steps
  pub probe_send_last_us : Steps
  pub probe_gen : ℕ

-- `self.epoch == Some(epoch)`.
abbrev pub is_bound_to : Option (List ℕ) → List ℕ → Bool
is_bound_to none epoch = false
is_bound_to (some bound) epoch = bytes_eq bound epoch

module _ (crates : Crates) (f : LossFloat) where
  unfoldable pub new : List ℕ → List ℕ → List ℕ → SenderEngine f
  new token session name = record {
    token = token;
    session = session;
    name = name;
    keys = none;
    epoch = none;
    addr = none;
    peer_name = [];
    instance_id = none;
    counter = 0;
    replay = remote_au.Crypto.Replay.new 2048;
    audio_seq = 0;
    adapt = start;
    last_recv = 0;
    last_lost = 0;
    last_underruns = 0;
    rtt_us = 0;
    jitter_us = 0;
    loss = f.none_lost;
    goodput_bps = 0;
    probe_bytes = no_steps;
    probe_recv_span_us = no_steps;
    probe_send_first_us = no_steps;
    probe_send_last_us = no_steps;
    probe_gen = 1;
  }

  pub bind_peer : SenderEngine f → List ℕ → SocketAddr → List ℕ → List ℕ → SenderEngine f × Bool
  bind_peer e epoch addr name instance_id =
      let moved : SenderEngine f = record e {
        addr = some addr;
        peer_name = name;
        instance_id = some instance_id;
      } in
      if is_bound_to e.epoch epoch then (moved, false) else (
        record moved {
          epoch = some epoch;
          keys = some (derive crates e.token epoch e.session);
          counter = 0;
          replay = remote_au.Crypto.Replay.new 2048;
          audio_seq = 0;
          last_recv = 0;
          last_lost = 0;
          last_underruns = 0;
          probe_bytes = no_steps;
          probe_recv_span_us = no_steps;
          probe_send_first_us = no_steps;
          probe_send_last_us = no_steps;
        },
        true,
      )

  unfoldable pub begin_probe : SenderEngine f → SenderEngine f
  begin_probe e = record e {
    probe_gen = max ((e.probe_gen + 1) % 2 ^ 32) 1;
    probe_bytes = no_steps;
    probe_recv_span_us = no_steps;
    probe_send_first_us = no_steps;
    probe_send_last_us = no_steps;
  }

  -- The second and third return of `seal`, with the counter taken.
  seal_next : SenderEngine f → List ℕ → ℕ → List ℕ → Option (List ℕ)
  seal_next e epoch kind body =
      if e.counter == 0
      then none
      else e.keys >>= λ keys.
          seal_packet crates keys.sender_to_receiver epoch e.session e.counter kind body

  -- `seal`, by `self.epoch`.
  seal_with : Option (List ℕ) → SenderEngine f → ℕ → List ℕ → SenderEngine f × Option (List ℕ)
  seal_with none e kind body = (e, none)
  seal_with (some epoch) e kind body =
      let counted : SenderEngine f = record e { counter = sat_add u64_max e.counter 1 } in
      (counted, seal_next counted epoch kind body)

  pub seal : SenderEngine f → ℕ → List ℕ → SenderEngine f × Option (List ℕ)
  seal e kind body = seal_with e.epoch e kind body

  -- `seal(kind, &body?)`.
  seal_body : SenderEngine f → ℕ → Option (List ℕ) → SenderEngine f × Option (List ℕ)
  seal_body e kind none = (e, none)
  seal_body e kind (some body) = seal e kind body

  pub hello : SenderEngine f → SenderEngine f × Option (List ℕ)
  hello e = seal_body e kind_hello (encode_hello e.name)

  -- `audio`, by the encoded payload.
  audio_with : Option (List ℕ) → SenderEngine f → ℕ → SenderEngine f × Option (List ℕ)
  audio_with none e now_us = (e, none)
  audio_with (some payload) e now_us =
      let seq = sat_add u64_max e.audio_seq 1 in
      seal_body (record e { audio_seq = seq }) kind_audio
        (encode_audio (record {
          seq = seq;
          send_ts_us = now_us;
          codec = codec e.adapt.profile;
          buffer_ms = min e.adapt.target_buffer_ms u16_max;
          payload = payload;
        }))

  pub audio : SenderEngine f → List ℕ → ℕ → SenderEngine f × Option (List ℕ)
  audio e pcm960 now_us = audio_with (encode_canonical (codec e.adapt.profile) pcm960) e now_us

  -- The first instant of a step is kept, the last one overwritten.
  pub note_send : SenderEngine f → ℕ → ℕ → SenderEngine f
  note_send e step now_us =
      if ltb step 5
      then record e {
        probe_send_first_us =
            (if step_at e.probe_send_first_us step == 0
              then with_step e.probe_send_first_us step now_us
              else e.probe_send_first_us);
        probe_send_last_us = with_step e.probe_send_last_us step now_us;
      }
      else e

  pub probe : SenderEngine f → ℕ → ℕ → ℕ → SenderEngine f × Option (List ℕ)
  probe e step payload now_us = seal_body (note_send e step now_us) kind_probe (
      encode_probe (record {
        gen = e.probe_gen;
        step = step;
        send_ts_us = now_us;
        payload = replicate payload 0;
      }))

  -- The end of `handle_feedback`, from `rtt` on.
  pub apply_feedback : SenderEngine f → FeedbackBody → ℕ → SenderEngine f
  apply_feedback e feedback now_us =
      let rtt_us = min (now_us - feedback.echo_send_ts_us - feedback.delay_us) u32_max in
      let lost_delta = feedback.lost - e.last_lost in
      let denom = sat_add u32_max (feedback.received - e.last_recv) lost_delta in
      let loss = if denom == 0 then f.none_lost else f.ratio lost_delta denom in
      let current = feedback.probe_gen == e.probe_gen in
      record e {
        rtt_us = rtt_us;
        jitter_us = feedback.jitter_us;
        last_recv = feedback.received;
        last_lost = feedback.lost;
        loss = loss;
        last_underruns = feedback.underruns;
        probe_bytes = (if current then feedback.probe_bytes else e.probe_bytes);
        probe_recv_span_us =
            (if current then feedback.probe_recv_span_us else e.probe_recv_span_us);
        adapt = observe f e.adapt (record {
          loss = loss;
          rtt_us = rtt_us;
          jitter_us = feedback.jitter_us;
          underruns = feedback.underruns - e.last_underruns;
        });
      }

  -- The feedback of a fresh packet.
  feedback_decoded : SenderEngine f → Option FeedbackBody → ℕ → SenderEngine f × Bool
  feedback_decoded e none now_us = (e, false)
  feedback_decoded e (some feedback) now_us = (apply_feedback e feedback now_us, true)

  -- The checks behind `open_packet`.
  feedback_opened : SenderEngine f → List ℕ → Option Opened → ℕ → SenderEngine f × Bool
  feedback_opened e epoch none now_us = (e, false)
  feedback_opened e epoch (some opened) now_us =
      let committed : SenderEngine f = record e { replay = (commit e.replay opened.counter).0 } in
      if not (bytes_eq opened.epoch epoch)
        || not (bytes_eq opened.session e.session)
        || not (opened.kind == kind_feedback)
      then (e, false)
      else if not (commit e.replay opened.counter).1
      then (committed, false)
      else feedback_decoded committed (decode_feedback opened.body) now_us

  -- `handle_feedback`, by the keys and the epoch.
  feedback_with :
      Option DirectionKeys → Option (List ℕ) → SenderEngine f → List ℕ → ℕ → SenderEngine f × Bool
  feedback_with none epoch e packet now_us = (e, false)
  feedback_with (some keys) none e packet now_us = (e, false)
  feedback_with (some keys) (some epoch) e packet now_us =
      feedback_opened e epoch (open_packet crates keys.receiver_to_sender packet) now_us

  pub handle_feedback : SenderEngine f → List ℕ → ℕ → SenderEngine f × Bool
  handle_feedback e packet now_us = feedback_with e.keys e.epoch e packet now_us

  timed_step : SenderEngine f → Steps → ℕ → ℕ → TimedStep
  timed_step e sent i rate = record {
    rate = rate;
    sent = step_at sent i;
    recv = step_at e.probe_bytes i;
    send_us = span_us (step_at e.probe_send_first_us i) (step_at e.probe_send_last_us i);
    recv_us = step_at e.probe_recv_span_us i;
  }

  pub note_probe : SenderEngine f → Steps → Bool → SenderEngine f
  note_probe e sent gradual =
      let floor = highest_sustainable_step_timed (
        timed_step e sent 0 500000
        ∷ timed_step e sent 1 1000000
        ∷ timed_step e sent 2 2000000
        ∷ timed_step e sent 3 4000000
        ∷ timed_step e sent 4 8000000
        ∷ []) in
      record e {
        goodput_bps = elim floor [ none ↦ 0 | some rate ↦ rate ];
        adapt = apply_floor e.adapt floor gradual;
      }
