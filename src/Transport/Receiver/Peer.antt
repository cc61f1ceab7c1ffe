-- ===== src/Transport/Receiver/Peer.antt =====
-- src/transport/receiver.rs: one peer of the receiving engine, and what its audio, its probes and the
-- feedback to it change. The clock, in microseconds from the engine's start, is an argument.
use remote_au.Common.{
  ℕ, ◌-◌, ◌≤◌, Bool, true, ◌&&◌, Option, none, some, List, [], length, min, max, ltb, leb, ◌==◌,
  if◌then◌else◌, clamp, sat_add, u32_max, u16_max,
}
use remote_au.Common.Int.{ℤ, ◌-ℤ◌, as_i64, wrap_i64, saturate_i64, unsigned_abs}
use remote_au.Crypto.Replay.{ReplayWindow}
use remote_au.Crypto.Session.{DirectionKeys}
use remote_au.Discovery.Sources.{SocketAddr}
use remote_au.Protocol.Wire.Bodies.{AudioBody, Steps, FeedbackBody, ProbeBody}
use remote_au.Transport.Adapt.State.{ReceiverAdapt, observe_jitter}
use remote_au.Transport.Receiver.Loss.{Account, observe_audio_seq, probe_recv_spans}
use remote_au.Transport.Sender.{no_steps, step_at, with_step}

-- What the code uses of f64 for the jitter: 0, `jitter += (delta as f64 - jitter) / 16.0`,
-- `jitter as u32` and `jitter.min(u32::MAX as f64) as u32`. A cast to u32 saturates.
pub record JitterFloat : Type 1 where
  pub Float : Type 0
  pub still : Float
  pub smooth : Float → ℕ → Float
  pub as_u32 : Float → ℕ
  pub min_as_u32 : Float → ℕ
  pub as_u32_fits : (x : Float) → as_u32 x ≤ u32_max
  pub min_as_u32_fits : (x : Float) → min_as_u32 x ≤ u32_max

module _ (j : JitterFloat) where
  -- The counts that `observe_audio_seq` works on are the field `account`.
  pub record Peer : Type 0 where
    pub keys : DirectionKeys
    pub replay : ReplayWindow
    pub send_counter : ℕ
    pub addr : SocketAddr
    pub name : List ℕ
    pub active : Bool
    pub account : Account
    pub jitter : j.Float
    pub last_transit : Option ℤ
    pub latest_send_ts : ℕ
    pub latest_arrival : ℕ
    pub suggested_ms : ℕ
    pub buffer_ms : ℕ
    pub probe_gen : ℕ
    pub probe_bytes : Steps
    pub probe_recv_first_us : Steps
    pub probe_recv_last_us : Steps
    pub last_feedback : Option ℕ
    pub starvations_mark : ℕ
    pub adapt : ReceiverAdapt

  -- `Peer::new`.
  unfoldable pub new : DirectionKeys → SocketAddr → List ℕ → ℕ → Peer
  new keys addr name clock = record {
    keys = keys;
    replay = remote_au.Crypto.Replay.new 2048;
    send_counter = 0;
    addr = addr;
    name = name;
    active = true;
    account = record {
      received = 0;
      lost = 0;
      max_audio_seq = 0;
      loss_cursor = 0;
      seen_audio = [];
    };
    jitter = j.still;
    last_transit = none;
    latest_send_ts = 0;
    latest_arrival = clock;
    suggested_ms = 20;
    buffer_ms = 20;
    probe_gen = 0;
    probe_bytes = no_steps;
    probe_recv_first_us = no_steps;
    probe_recv_last_us = no_steps;
    last_feedback = none;
    starvations_mark = 0;
    adapt = remote_au.Transport.Adapt.State.new;
  }

  -- The jitter moves by the change of the transit time, which wraps as an i64 does.
  jittered : Option ℤ → ℤ → j.Float → j.Float
  jittered none transit jitter = jitter
  jittered (some prev) transit jitter = j.smooth jitter (unsigned_abs (wrap_i64 (transit -ℤ prev)))

  -- The block of `apply_audio` on the peer.
  unfoldable pub audio_arrived : Peer → AudioBody → ℕ → Peer
  unfolding jittered
  audio_arrived peer audio clock =
      let transit = saturate_i64 (as_i64 clock -ℤ as_i64 audio.send_ts_us) in
      record peer {
        account = observe_audio_seq peer.account audio.seq;
        jitter = jittered peer.last_transit transit peer.jitter;
        last_transit = some transit;
        latest_send_ts = audio.send_ts_us;
        latest_arrival = clock;
        suggested_ms = audio.buffer_ms;
      }

  -- A probe of another train than the last clears the five counts.
  unfoldable pub probe_train : Peer → ℕ → Peer
  probe_train peer gen = if gen == peer.probe_gen then peer else record peer {
    probe_gen = gen;
    probe_bytes = no_steps;
    probe_recv_first_us = no_steps;
    probe_recv_last_us = no_steps;
  }

  -- The count of a step: its first arrival is kept, the last one overwritten.
  unfoldable pub probe_counted : Peer → ℕ → ℕ → ℕ → Peer
  probe_counted peer step bytes clock =
      if ltb step 5
      then record peer {
        probe_bytes =
            with_step peer.probe_bytes step (sat_add u32_max (step_at peer.probe_bytes step) bytes);
        probe_recv_first_us =
            (if step_at peer.probe_recv_first_us step == 0
              then with_step peer.probe_recv_first_us step clock
              else peer.probe_recv_first_us);
        probe_recv_last_us = with_step peer.probe_recv_last_us step clock;
      }
      else peer

  -- The block of `apply_probe` on the peer.
  unfoldable pub probe_arrived : Peer → ProbeBody → ℕ → Peer
  probe_arrived peer probe clock =
      record (probe_counted (probe_train peer probe.gen) probe.step (length probe.payload) clock) {
        latest_send_ts = probe.send_ts_us;
        latest_arrival = clock;
      }

  long_ago : Option ℕ → ℕ → Bool
  long_ago none now = true
  long_ago (some at) now = leb 400000 (now - at)

  -- The test of `feedback_due`: no feedback in the last 400 ms.
  pub is_due : Peer → ℕ → Bool
  unfolding long_ago
  is_due peer now = peer.active && long_ago peer.last_feedback now

  -- The buffer that is asked of the mixer, from the starvations of the stream.
  unfoldable pub starvations_seen : Peer → ℕ → Peer
  starvations_seen peer starvations =
      let adapt =
        observe_jitter peer.adapt (j.as_u32 peer.jitter)
          (min (starvations - peer.starvations_mark) u32_max) in
      record peer {
        starvations_mark = starvations;
        adapt = adapt;
        buffer_ms = clamp (max adapt.target_ms peer.suggested_ms) 15 150;
      }

  unfoldable pub feedback_of : Peer → ℕ → ℕ → FeedbackBody
  feedback_of peer starvations clock = record {
    echo_send_ts_us = peer.latest_send_ts;
    delay_us = min (clock - peer.latest_arrival) u32_max;
    echo_seq = peer.account.max_audio_seq;
    received = peer.account.received;
    lost = peer.account.lost;
    jitter_us = j.min_as_u32 peer.jitter;
    underruns = min starvations u32_max;
    buffer_ms = min peer.buffer_ms u16_max;
    probe_gen = peer.probe_gen;
    probe_bytes = peer.probe_bytes;
    probe_recv_span_us =
        probe_recv_spans peer.probe_bytes peer.probe_recv_first_us peer.probe_recv_last_us;
  }

  pub record PeerReport : Type 0 where
    pub id : List ℕ
    pub name : List ℕ
    pub received : ℕ
    pub lost : ℕ
    pub jitter_us : ℕ
    pub buffer_ms : ℕ

  pub report_of : List ℕ → Peer → PeerReport
  report_of id peer = record {
    id = id;
    name = peer.name;
    received = peer.account.received;
    lost = peer.account.lost;
    jitter_us = j.min_as_u32 peer.jitter;
    buffer_ms = peer.buffer_ms;
  }
