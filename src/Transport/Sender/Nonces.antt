-- ===== src/Transport/Sender/Nonces.antt =====
-- Runs of the sending engine, and the counters of their packets.
pub mod Moves
pub mod Run
use remote_au.Common.{
  ℕ, ◌+◌, ◌^◌, ◌≤◌, ◌<◌, ◌≡◌, refl, sym, ap, ◌∙◌, inl, inr, Bool, true, false, not, ◌||◌, Option,
  none, some, List, [], ◌∷◌, length, replicate, bytes_eq, ltb, ◌==◌, if◌then◌else◌, ◌>>=◌, sat_add,
  u64_max, min, u16_max, All, Bool-cases, Option-cases, arith, bytes_eq_refl,
}
use mathlib.Core.Path.{subst}
use remote_au.Crypto.Replay.{ReplayWindow, commit}
use remote_au.Crypto.Session.{Crates, DirectionKeys}
use remote_au.Discovery.Sources.{SocketAddr}
use remote_au.Protocol.Wire.Header.{kind_hello, kind_audio, kind_feedback, kind_probe}
use remote_au.Protocol.Wire.Names.{encode_hello}
use remote_au.Protocol.Wire.Bodies.{
  Steps, FeedbackBody, encode_audio, encode_probe, decode_feedback,
}
use remote_au.Protocol.Codec.Mono.{encode_canonical}
use remote_au.Transport.Adapt.Probe.{codec}
use remote_au.Transport.Adapt.State.{LossFloat}
use remote_au.Transport.Packet.{Opened, seal_packet, open_packet}
use remote_au.Transport.Sender.{
  SenderEngine, bind_peer, is_bound_to, begin_probe, seal_next, seal, seal_body, hello, audio,
  note_send, step_at, with_step, probe, audio_with, seal_with, apply_feedback, feedback_decoded,
  feedback_opened, feedback_with, handle_feedback, note_probe,
}

-- What the daemon does with an engine.
pub data Op : Type 0 where
  bind : List ℕ → SocketAddr → List ℕ → List ℕ → Op
  probe_begin : Op
  say_hello : Op
  send_audio : List ℕ → ℕ → Op
  send_probe : ℕ → ℕ → ℕ → Op
  receive : List ℕ → ℕ → Op
  probe_end : Steps → Bool → Op

module _ (crates : Crates) (f : LossFloat) where
  unfoldable pub run_op : SenderEngine f → Op → SenderEngine f × Option (List ℕ)
  run_op e (bind epoch addr name instance_id) =
      ((bind_peer crates f e epoch addr name instance_id).0, none)
  run_op e probe_begin = (begin_probe crates f e, none)
  run_op e say_hello = hello crates f e
  run_op e (send_audio pcm now) = audio crates f e pcm now
  run_op e (send_probe step payload now) = probe crates f e step payload now
  run_op e (receive packet now) = ((handle_feedback crates f e packet now).0, none)
  run_op e (probe_end sent gradual) = (note_probe crates f e sent gradual, none)

  -- The packets of a run, in order.
  pub run : SenderEngine f → List Op → List (List ℕ)
  run e [] = []
  run e (op ∷ ops) =
      let rest = run (run_op e op).0 ops in
      elim (run_op e op).1 [ none ↦ rest | some packet ↦ packet ∷ rest ]

  module _ (keys : DirectionKeys) (epoch session : List ℕ) where
    pub record Bound (e : SenderEngine f) : Type 0 where
      pub has_keys : e.keys ≡ some keys
      pub has_epoch : e.epoch ≡ some epoch
      pub has_session : e.session ≡ session

    -- The packet is sealed under the keys with that counter.
    pub SealedWith : ℕ → List ℕ → Type 0
    SealedWith counter packet =
        (kind : ℕ) × (body : List ℕ) × (seal_packet crates keys.sender_to_receiver epoch session
            counter kind body
          ≡ some packet)

    -- Each packet is sealed with a counter above those before it.
    unfoldable pub Rising : ℕ → List (List ℕ) → Type 0
    Rising used [] = Unit
    Rising used (packet ∷ packets) =
        (counter : ℕ) × (used < counter)
        × (counter < 2 ^ 64)
        × SealedWith counter packet
        × Rising counter packets

    -- A binding to the epoch that the engine has.
    abbrev pub Stays : Op → Type 0
    Stays (bind to addr name instance_id) = to ≡ epoch
    Stays probe_begin = Unit
    Stays say_hello = Unit
    Stays (send_audio pcm now) = Unit
    Stays (send_probe step payload now) = Unit
    Stays (receive packet now) = Unit
    Stays (probe_end sent gradual) = Unit
