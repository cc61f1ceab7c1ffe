-- ===== src/Transport/Sender/Feedback.antt =====
-- Feedback at the sending engine (src/transport/sender.rs).
use remote_au.Common.{ℕ, ◌≡◌, ◌∙◌, refl, ap, true, some, List, bytes_eq, bytes_eq_refl}
use remote_au.Crypto.Replay.{commit}
use remote_au.Crypto.Session.{Crates, DirectionKeys}
use remote_au.Protocol.Wire.Bodies.{FeedbackBody, decode_feedback}
use remote_au.Protocol.Wire.Header.{kind_feedback}
use remote_au.Transport.Adapt.State.{LossFloat}
use remote_au.Transport.Packet.{Opened, open_packet}
use remote_au.Transport.Sender.{
  SenderEngine, handle_feedback, feedback_with, feedback_opened, feedback_decoded, apply_feedback,
}

module _ (crates : Crates) (f : LossFloat) where
  -- The engine with a counter committed.
  abbrev pub committed : SenderEngine f → ℕ → SenderEngine f
  committed s counter = record s { replay = (commit s.replay counter).0 }

  pub handle_feedback-applies :
      (s : SenderEngine f) (keys : DirectionKeys) (packet : List ℕ) (opened : Opened)
      (body : FeedbackBody) (now_us : ℕ)
      → s.keys ≡ some keys
      → s.epoch ≡ some opened.epoch
      → open_packet crates keys.receiver_to_sender packet ≡ some opened
      → opened.session ≡ s.session
      → opened.kind ≡ kind_feedback
      → (commit s.replay opened.counter).1 ≡ true
      → decode_feedback opened.body ≡ some body
      → handle_feedback crates f s packet now_us
        ≡ (apply_feedback crates f (committed s opened.counter) body now_us, true)
  unfolding handle_feedback feedback_with feedback_opened feedback_decoded
  handle_feedback-applies s keys packet opened body now_us has_keys has_epoch opens session kind
        took decoded =
      let same : bytes_eq opened.session s.session ≡ true =
        ap (λ x. bytes_eq x s.session) session ∙ bytes_eq_refl s.session in
      simp (has_keys, has_epoch, opens, bytes_eq_refl opened.epoch, same, kind, took, decoded) refl
