-- ===== src/Transport/Sender/Nonces/Moves.antt =====
-- What one operation does to a bound engine.
use remote_au.Common.{
  ℕ, ◌+◌, ◌^◌, ◌≤◌, ◌<◌, ◌≡◌, refl, sym, ap, ◌∙◌, inl, inr, Bool, true, false, not, Option, none,
  some, List, ltb, ◌==◌, if◌then◌else◌, sat_add, u64_max, Bool-cases, arith, bytes_eq_refl,
}
use mathlib.Core.Path.{subst}
use remote_au.Crypto.Replay.{commit}
use remote_au.Crypto.Session.{Crates, DirectionKeys}
use remote_au.Discovery.Sources.{SocketAddr}
use remote_au.Protocol.Wire.Header.{kind_hello, kind_audio, kind_probe}
use remote_au.Protocol.Wire.Names.{encode_hello}
use remote_au.Protocol.Wire.Bodies.{FeedbackBody, decode_feedback}
use remote_au.Protocol.Codec.Mono.{encode_canonical}
use remote_au.Transport.Adapt.Probe.{codec}
use remote_au.Transport.Adapt.State.{LossFloat}
use remote_au.Transport.Packet.{Opened, seal_packet, open_packet}
use remote_au.Transport.Sender.{
  SenderEngine, bind_peer, is_bound_to, begin_probe, seal_next, seal, seal_body, hello, audio,
  note_send, probe, audio_with, seal_with, apply_feedback, feedback_decoded, feedback_opened,
  feedback_with, handle_feedback, note_probe,
}
use remote_au.Transport.Sender.Nonces.{
  Op, bind, probe_begin, say_hello, send_audio, send_probe, receive, probe_end, run_op, Bound,
  SealedWith, Stays,
}

module _ (crates : Crates) (f : LossFloat) (keys : DirectionKeys) (epoch session : List ℕ) where
  -- What one operation does to a bound engine.
  pub record Sends (e : SenderEngine f) (out : SenderEngine f × Option (List ℕ)) : Type 0 where
    pub bound : Bound crates f keys epoch session out.0
    pub later : e.counter ≤ out.0.counter
    pub next : out.0.counter ≤ e.counter + 1
    pub sent :
        (packet : List ℕ)
        → out.1 ≡ some packet
        → (e.counter < out.0.counter) × SealedWith crates f keys epoch session out.0.counter packet

  -- Nothing that the counter or the keys depend on is changed, and nothing is sent.
  quiet :
      (e e' : SenderEngine f)
      → Bound crates f keys epoch session e'
      → e'.counter ≡ e.counter
      → Sends e (e', none)
  quiet e e' b c = record {
    bound = b;
    later = omega (arith, c);
    next = omega (arith, c);
    sent = λ packet h. cc;
  }

  -- The same for an engine that differs from `e` in nothing that matters.
  moved :
      (e e' : SenderEngine f) (out : SenderEngine f × Option (List ℕ))
      → e'.counter ≡ e.counter
      → Sends e' out
      → Sends e out
  moved e e' out c s = record {
    bound = s.bound;
    later = omega (arith, c, s.later);
    next = omega (arith, c, s.next);
    sent = λ packet h. (omega (arith, c, (s.sent packet h).0), (s.sent packet h).1);
  }

  seal_next-SealedWith :
      (e : SenderEngine f) (kind : ℕ) (body packet : List ℕ)
      → Bound crates f keys epoch session e
      → 0 < e.counter
      → seal_next crates f e epoch kind body ≡ some packet
      → SealedWith crates f keys epoch session e.counter packet
  unfolding seal_next SealedWith
  seal_next-SealedWith e kind body packet b h s = (kind, body, sym sealed ∙ s)
    where
      nonzero : (e.counter == 0) ≡ false
      nonzero = ground (arith, h)

      sealed :
          seal_next crates f e epoch kind body
          ≡ seal_packet crates keys.sender_to_receiver epoch session e.counter kind body
      sealed = simp (nonzero, b.has_keys, b.has_session) refl

  seal-Sends :
      (e : SenderEngine f) (kind : ℕ) (body : List ℕ)
      → Bound crates f keys epoch session e
      → e.counter + 1 < 2 ^ 64
      → Sends e (seal crates f e kind body)
  unfolding seal seal_with
  seal-Sends e kind body b h =
      let counted : SenderEngine f = record e { counter = sat_add u64_max e.counter 1 } in
      let b' : Bound crates f keys epoch session counted = record {
        has_keys = b.has_keys;
        has_epoch = b.has_epoch;
        has_session = b.has_session;
      } in
      subst (λ o. Sends e (seal_with crates f o e kind body)) (sym b.has_epoch)
        (record {
          bound = b';
          later = omega (arith, h);
          next = omega (arith, h);
          sent = λ packet s. (
            omega (arith, h),
            seal_next-SealedWith counted kind body packet b' (omega (arith, h)) s,
          );
        })

  seal_body-Sends :
      (e : SenderEngine f) (kind : ℕ) (body : Option (List ℕ))
      → Bound crates f keys epoch session e
      → e.counter + 1 < 2 ^ 64
      → Sends e (seal_body crates f e kind body)
  unfolding seal_body
  seal_body-Sends e kind none b h = quiet e e b refl
  seal_body-Sends e kind (some body) b h = seal-Sends e kind body b h

  audio_with-Sends :
      (e : SenderEngine f) (payload : Option (List ℕ)) (now : ℕ)
      → Bound crates f keys epoch session e
      → e.counter + 1 < 2 ^ 64
      → Sends e (audio_with crates f payload e now)
  unfolding audio_with
  audio_with-Sends e none now b h = quiet e e b refl
  audio_with-Sends e (some payload) now b h =
      let e' : SenderEngine f = record e { audio_seq = sat_add u64_max e.audio_seq 1 } in
      moved e e' _ refl (
        seal_body-Sends e' kind_audio _
          (record { has_keys = b.has_keys; has_epoch = b.has_epoch; has_session = b.has_session })
          h)

  note_send-Bound :
      (e : SenderEngine f) (step now : ℕ)
      → Bound crates f keys epoch session e
      → Bound crates f keys epoch session (note_send crates f e step now)
        × ((note_send crates f e step now).counter ≡ e.counter)
  unfolding note_send
  note_send-Bound e step now b = elim (Bool-cases (ltb step 5)) [
    | inl t ↦ rw t (
      record { has_keys = b.has_keys; has_epoch = b.has_epoch; has_session = b.has_session },
      refl,
    )
    | inr t ↦ rw t (b, refl)
  ]

  probe-Sends :
      (e : SenderEngine f) (step payload now : ℕ)
      → Bound crates f keys epoch session e
      → e.counter + 1 < 2 ^ 64
      → Sends e (probe crates f e step payload now)
  unfolding probe
  probe-Sends e step payload now b h =
      let (b', c) = note_send-Bound e step now b in
      moved e (note_send crates f e step now) _ c
        (seal_body-Sends _ kind_probe _ b' (omega (arith, c)))

  pick :
      (e : SenderEngine f) (c : Bool) (x y : SenderEngine f × Bool)
      → Sends e (x.0, none)
      → Sends e (y.0, none)
      → Sends e ((if c then x else y).0, none)
  pick e true x y p q = p
  pick e false x y p q = q

  feedback_decoded-Sends :
      (e : SenderEngine f) (decoded : Option FeedbackBody) (now : ℕ)
      → Bound crates f keys epoch session e
      → Sends e ((feedback_decoded crates f e decoded now).0, none)
  unfolding feedback_decoded apply_feedback
  feedback_decoded-Sends e none now b = quiet e e b refl
  feedback_decoded-Sends e (some feedback) now b =
      quiet e (apply_feedback crates f e feedback now)
        (record { has_keys = b.has_keys; has_epoch = b.has_epoch; has_session = b.has_session })
        refl

  feedback_opened-Sends :
      (e : SenderEngine f) (opened : Option Opened) (now : ℕ)
      → Bound crates f keys epoch session e
      → Sends e ((feedback_opened crates f e epoch opened now).0, none)
  unfolding feedback_opened
  feedback_opened-Sends e none now b = quiet e e b refl
  feedback_opened-Sends e (some opened) now b =
      let c : SenderEngine f = record e { replay = (commit e.replay opened.counter).0 } in
      let b' : Bound crates f keys epoch session c = record {
        has_keys = b.has_keys;
        has_epoch = b.has_epoch;
        has_session = b.has_session;
      } in
      pick e _ (e, false) _ (quiet e e b refl)
        (pick e (not (commit e.replay opened.counter).1) (c, false) _ (quiet e c b' refl)
          (moved e c _ refl (feedback_decoded-Sends c (decode_feedback opened.body) now b')))

  feedback_with-Sends :
      (e : SenderEngine f) (ks : Option DirectionKeys) (packet : List ℕ) (now : ℕ)
      → Bound crates f keys epoch session e
      → Sends e ((feedback_with crates f ks (some epoch) e packet now).0, none)
  unfolding feedback_with
  feedback_with-Sends e none packet now b = quiet e e b refl
  feedback_with-Sends e (some ks) packet now b =
      feedback_opened-Sends e (open_packet crates ks.receiver_to_sender packet) now b

  bind-Sends :
      (e : SenderEngine f) (addr : SocketAddr) (name instance_id : List ℕ)
      → Bound crates f keys epoch session e
      → Sends e ((bind_peer crates f e epoch addr name instance_id).0, none)
  unfolding bind_peer
  bind-Sends e addr name instance_id b = simp same (
      quiet e _
        (record { has_keys = b.has_keys; has_epoch = b.has_epoch; has_session = b.has_session })
        refl)
    where
      same : is_bound_to e.epoch epoch ≡ true
      same = ap (λ o. is_bound_to o epoch) b.has_epoch ∙ bytes_eq_refl epoch

  pub run_op-Sends :
      (e : SenderEngine f) (op : Op)
      → Stays crates f keys epoch session op
      → Bound crates f keys epoch session e
      → e.counter + 1 < 2 ^ 64
      → Sends e (run_op crates f e op)
  unfolding run_op begin_probe hello audio handle_feedback note_probe
  run_op-Sends e (bind to addr name instance_id) s b h = rw s (bind-Sends e addr name instance_id b)
  run_op-Sends e probe_begin s b h =
      quiet e _
        (record { has_keys = b.has_keys; has_epoch = b.has_epoch; has_session = b.has_session })
        refl
  run_op-Sends e say_hello s b h = seal_body-Sends e kind_hello (encode_hello e.name) b h
  run_op-Sends e (send_audio pcm now) s b h =
      audio_with-Sends e (encode_canonical (codec e.adapt.profile) pcm) now b h
  run_op-Sends e (send_probe step payload now) s b h = probe-Sends e step payload now b h
  run_op-Sends e (receive packet now) s b h =
      subst (λ o. Sends e ((feedback_with crates f e.keys o e packet now).0, none))
        (sym b.has_epoch) (feedback_with-Sends e e.keys packet now b)
  run_op-Sends e (probe_end sent gradual) s b h =
      quiet e _
        (record { has_keys = b.has_keys; has_epoch = b.has_epoch; has_session = b.has_session })
        refl
