-- ===== src/Transport/Exchange/Feedback.antt =====
-- Feedback from the receiver to the sender: src/transport/receiver.rs against src/transport/sender.rs.
use remote_au.Common.{ℕ, ◌+◌, ◌<◌, ◌≡◌, refl, true, some, List, [], ◌∷◌, length, u64_max}
use remote_au.Crypto.Replay.{commit}
use remote_au.Crypto.Session.{Crates, Documented}
use remote_au.Mixer.Streams.{GainFloat, Mixer}
use remote_au.Transport.Adapt.State.{LossFloat}
use remote_au.Transport.Receiver.Feedback.{feedback_to}
use remote_au.Transport.Receiver.Feedback.Sends.{PeerFits, round_feedback, feedback_to-Sends}
use remote_au.Transport.Receiver.Peer.{JitterFloat, Peer}
use remote_au.Transport.Sender.{SenderEngine, handle_feedback, apply_feedback}
use remote_au.Transport.Sender.Feedback.{committed, handle_feedback-applies}

module _ (crates : Crates) (documented : Documented crates) (hex_encode : List ℕ → List ℕ)
    (f : LossFloat) (j : JitterFloat) (g : GainFloat) where
  -- A peer whose words are in the range of their types and whose send counter is not at its end is sent one packet to its address in its round of `feedback_due`, under the next counter. A sender with the peer's keys, the epoch and the session, whose window takes that counter, applies the very feedback that the receiver composed, field for field.
  pub feedback_applied :
      (epoch : List ℕ) (p : Peer j) (m : Mixer g) (now clock now_us : ℕ) (s : SenderEngine f)
      → PeerFits j p
      → length epoch ≡ 16
      → length s.session ≡ 16
      → p.send_counter < u64_max
      → s.keys ≡ some p.keys
      → s.epoch ≡ some epoch
      → (commit s.replay (p.send_counter + 1)).1 ≡ true
      → let out = feedback_to crates hex_encode j g epoch s.session p m now clock in
        (packet : List ℕ) × (out.2 ≡ (p.addr, packet) ∷ [])
        × (out.0.send_counter ≡ p.send_counter + 1)
        × (handle_feedback crates f s packet now_us ≡ (
          apply_feedback crates f
              (committed crates f s (p.send_counter + 1))
              (round_feedback crates documented hex_encode j g s.session p m clock)
              now_us,
          true,
        ))
  feedback_applied epoch p m now clock now_us s fits he hs left has_keys has_epoch took =
      let (packet, sent, counted, decoded, opens) =
        feedback_to-Sends crates documented hex_encode j g epoch s.session p m now clock fits he hs
          left in
      (
        packet,
        sent,
        counted,
        handle_feedback-applies crates f s p.keys packet _ _ now_us has_keys has_epoch opens refl
            refl took decoded,
      )
