-- ===== src/Transport/Sender/Address.antt =====
-- The address of the sending engine (src/transport/sender.rs) under all operations but `bind_peer`.
use remote_au.Common.{
  ℕ, ◌≡◌, refl, ◌∙◌, not, ◌||◌, ◌==◌, Option, none, some, List, bytes_eq, ltb, Bool, inl, inr,
  Bool-cases, Option-cases,
}
use remote_au.Crypto.Replay.{commit}
use remote_au.Crypto.Session.{Crates, DirectionKeys}
use remote_au.Protocol.Codec.Mono.{encode_canonical}
use remote_au.Protocol.Wire.Bodies.{decode_feedback, Steps}
use remote_au.Protocol.Wire.Header.{kind_feedback}
use remote_au.Protocol.Wire.Names.{encode_hello}
use remote_au.Transport.Adapt.Probe.{codec}
use remote_au.Transport.Adapt.State.{LossFloat}
use remote_au.Transport.Packet.{Opened, open_packet}
use remote_au.Transport.Sender.{
  SenderEngine, bind_peer, is_bound_to, seal, seal_with, seal_body, hello, audio, audio_with,
  note_send, probe, apply_feedback, feedback_decoded, feedback_opened, feedback_with,
  handle_feedback, note_probe,
}
use remote_au.Discovery.Sources.{SocketAddr}

module _ (crates : Crates) (f : LossFloat) where
  seal_body-addr :
      (e : SenderEngine f) (kind : ℕ) (body : Option (List ℕ))
      → (seal_body crates f e kind body).0.addr ≡ e.addr
  unfolding seal_body seal
  seal_body-addr e kind none = refl
  seal_body-addr e kind (some body) = by_epoch e.epoch
    where
      by_epoch : (o : Option (List ℕ)) → (seal_with crates f o e kind body).0.addr ≡ e.addr
      by_epoch none = unfold seal_with in refl
      by_epoch (some epoch) = unfold seal_with in refl

  pub hello-addr : (e : SenderEngine f) → (hello crates f e).0.addr ≡ e.addr
  unfolding hello
  hello-addr e = seal_body-addr e _ (encode_hello e.name)

  pub audio-addr :
      (e : SenderEngine f) (pcm : List ℕ) (now : ℕ) → (audio crates f e pcm now).0.addr ≡ e.addr
  unfolding audio
  audio-addr e pcm now = by_payload (encode_canonical (codec e.adapt.profile) pcm)
    where
      by_payload : (o : Option (List ℕ)) → (audio_with crates f o e now).0.addr ≡ e.addr
      by_payload none = unfold audio_with in refl
      by_payload (some payload) = unfold audio_with in seal_body-addr _ _ _

  note_send-addr :
      (e : SenderEngine f) (step now : ℕ) → (note_send crates f e step now).addr ≡ e.addr
  unfolding note_send
  note_send-addr e step now = elim (Bool-cases (ltb step 5)) [
    | inl low ↦ simp low refl
    | inr high ↦ simp high refl
  ]

  pub probe-addr :
      (e : SenderEngine f) (step payload now : ℕ)
      → (probe crates f e step payload now).0.addr ≡ e.addr
  unfolding probe
  probe-addr e step payload now =
      seal_body-addr (note_send crates f e step now) _ _ ∙ note_send-addr e step now

  feedback_opened-addr :
      (e : SenderEngine f) (epoch : List ℕ) (o : Option Opened) (now : ℕ)
      → (feedback_opened crates f e epoch o now).0.addr ≡ e.addr
  unfolding feedback_opened feedback_decoded apply_feedback
  feedback_opened-addr e epoch none now = refl
  feedback_opened-addr e epoch (some opened) now =
      elim (Bool-cases (
        not (bytes_eq opened.epoch epoch)
        || not (bytes_eq opened.session e.session)
        || not (opened.kind == kind_feedback))) [
          | inl other ↦ simp other refl
          | inr ours ↦ simp ours (elim (Bool-cases (commit e.replay opened.counter).1) [
            | inr stale ↦ simp stale refl
            | inl took ↦ simp took (elim (Option-cases (decode_feedback opened.body)) [
              | inl bad ↦ rw bad refl
              | inr (feedback, good) ↦ rw good refl
            ])
          ])
        ]

  pub handle_feedback-addr :
      (e : SenderEngine f) (packet : List ℕ) (now : ℕ)
      → (handle_feedback crates f e packet now).0.addr ≡ e.addr
  unfolding handle_feedback
  handle_feedback-addr e packet now = by_keys e.keys e.epoch
    where
      by_keys :
          (k : Option DirectionKeys) (o : Option (List ℕ))
          → (feedback_with crates f k o e packet now).0.addr ≡ e.addr
      by_keys none o = unfold feedback_with in refl
      by_keys (some keys) none = unfold feedback_with in refl
      by_keys (some keys) (some epoch) =
          unfold feedback_with in
          feedback_opened-addr e epoch (open_packet crates keys.receiver_to_sender packet) now

  pub note_probe-addr :
      (e : SenderEngine f) (sent : Steps) (gradual : Bool)
      → (note_probe crates f e sent gradual).addr ≡ e.addr
  unfolding note_probe
  note_probe-addr e sent gradual = refl

  pub bind_peer-addr :
      (e : SenderEngine f) (epoch : List ℕ) (addr : SocketAddr) (name instance_id : List ℕ)
      → (bind_peer crates f e epoch addr name instance_id).0.addr ≡ some addr
  unfolding bind_peer
  bind_peer-addr e epoch addr name instance_id = elim (Bool-cases (is_bound_to e.epoch epoch)) [
    | inl bound ↦ simp bound refl
    | inr fresh ↦ simp fresh refl
  ]
