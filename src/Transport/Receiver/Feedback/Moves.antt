-- ===== src/Transport/Receiver/Feedback/Moves.antt =====
-- The peers under `feedback_due` and `expire` (src/transport/receiver.rs).
use remote_au.Common.{
  ℕ, inl, inr, refl, List, [], ◌∷◌, ◌==◌, sat_add, u64_max, Bool-cases, Option-cases, arith,
}
use remote_au.Crypto.Session.{Crates}
use remote_au.Mixer.Streams.{GainFloat, Mixer}
use remote_au.Protocol.Wire.Bodies.{encode_feedback}
use remote_au.Protocol.Wire.Header.{kind_feedback}
use remote_au.Transport.Packet.{seal_packet}
use remote_au.Transport.Receiver.Engine.{Peers, ReceiverEngine}
use remote_au.Transport.Receiver.Engine.Moves.{Change, Change-refl, Change-trans, Moves}
use remote_au.Transport.Receiver.Engine.Changed.{Changed, Changed-Moves}
use remote_au.Transport.Receiver.Feedback.{
  sent_feedback, seal_feedback, feedback_to, feedback_all, feedback_due, is_gone, retire, expire,
  starvations_of,
}
use remote_au.Transport.Receiver.Peer.{JitterFloat, Peer, is_due, starvations_seen, feedback_of}

module _ (crates : Crates) (hex_encode : List ℕ → List ℕ) (j : JitterFloat) (g : GainFloat) where
  starvations_seen-Change :
      (p : Peer j) (starvations : ℕ) → Change crates j p (starvations_seen j p starvations)
  unfolding starvations_seen
  starvations_seen-Change p starvations = record {
    keys = refl;
    window = λ w. w;
    grows = λ c t. t;
    buffer = λ b. (ground arith, ground arith);
  }

  seal_feedback-Change :
      (epoch session : List ℕ) (p : Peer j) (starvations now clock : ℕ)
      → Change crates j p
          (seal_feedback crates hex_encode j g epoch session p starvations now clock).0
  unfolding seal_feedback sent_feedback
  seal_feedback-Change epoch session p starvations now clock =
      elim (Bool-cases (sat_add u64_max p.send_counter 1 == 0)) [
        | inl e ↦
            simp e (record { keys = refl; window = λ w. w; grows = λ c t. t; buffer = λ b. b })
        | inr e ↦
            simp e
              (elim (Option-cases (
                seal_packet crates p.keys.receiver_to_sender epoch session
                  (sat_add u64_max p.send_counter 1) kind_feedback
                  (encode_feedback (feedback_of j p starvations clock)))) [
                    | inl bad ↦
                        simp bad (record {
                          keys = refl;
                          window = λ w. w;
                          grows = λ c t. t;
                          buffer = λ b. b;
                        })
                    | inr (packet, good) ↦
                        simp good (record {
                          keys = refl;
                          window = λ w. w;
                          grows = λ c t. t;
                          buffer = λ b. b;
                        })
                  ])
      ]

  feedback_to-Change :
      (epoch session : List ℕ) (p : Peer j) (m : Mixer g) (now clock : ℕ)
      → Change crates j p (feedback_to crates hex_encode j g epoch session p m now clock).0
  unfolding feedback_to
  feedback_to-Change epoch session p m now clock =
      Change-trans crates j p _ _
        (starvations_seen-Change p
          (starvations_of crates hex_encode j g (hex_encode session) m.streams))
        (seal_feedback-Change epoch session _ _ now clock)

  feedback_all-Changed :
      (epoch : List ℕ) (ps : Peers j) (m : Mixer g) (now clock : ℕ)
      → Changed crates j ps (feedback_all crates hex_encode j g epoch ps m now clock).0
  unfolding feedback_all
  feedback_all-Changed epoch [] m now clock = tt
  feedback_all-Changed epoch ((s, p) ∷ ps) m now clock = elim (Bool-cases (is_due j p now)) [
    | inl due ↦
        simp due (
          refl,
          feedback_to-Change epoch s p m now clock,
          feedback_all-Changed epoch ps _ now clock,
        )
    | inr early ↦
        simp early (refl, Change-refl crates j p, feedback_all-Changed epoch ps m now clock)
  ]

  pub feedback_due-Moves :
      (fresh : List ℕ) (e : ReceiverEngine j) (m : Mixer g) (now clock : ℕ)
      → Moves crates j fresh e (feedback_due crates hex_encode j g e m now clock).0.0
  unfolding feedback_due
  feedback_due-Moves fresh e m now clock =
      Changed-Moves crates j fresh e _ (feedback_all-Changed e.epoch e.peers m now clock)

  retire-Changed :
      (removed : List (List ℕ)) (ps : Peers j)
      → Changed crates j ps (retire crates hex_encode j g removed ps)
  unfolding retire
  retire-Changed removed [] = tt
  retire-Changed removed ((s, p) ∷ ps) = (
    refl,
    elim (Bool-cases (is_gone crates hex_encode j g (hex_encode s) removed)) [
      | inl gone ↦
          simp gone (record { keys = refl; window = λ w. w; grows = λ c t. t; buffer = λ b. b })
      | inr there ↦ simp there (Change-refl crates j p)
    ],
    retire-Changed removed ps,
  )

  pub expire-Moves :
      (fresh : List ℕ) (e : ReceiverEngine j) (m : Mixer g) (max_idle now : ℕ)
      → Moves crates j fresh e (expire crates hex_encode j g e m max_idle now).0
  unfolding expire
  expire-Moves fresh e m max_idle now = Changed-Moves crates j fresh e _ (retire-Changed _ e.peers)
