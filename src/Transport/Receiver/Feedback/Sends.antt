-- ===== src/Transport/Receiver/Feedback/Sends.antt =====
-- What `feedback_due` sends to a peer (src/transport/receiver.rs).
use remote_au.Common.{
  ℕ, ◌+◌, ◌^◌, ◌<◌, ◌≡◌, refl, false, ◌==◌, some, List, [], ◌∷◌, length, sat_add, u64_max,
  >>=-eq-some, arith,
}
use remote_au.Crypto.Session.{Crates, Documented}
use remote_au.Mixer.Streams.{GainFloat, Mixer}
use remote_au.Protocol.Wire.Bodies.{
  Steps, FeedbackBody, StepsFit, FeedbackFits, encode_feedback, decode_feedback,
}
use remote_au.Protocol.Wire.Bodies.RoundTrip.{decode_feedback-encode_feedback}
use remote_au.Protocol.Wire.Header.{kind_feedback}
use remote_au.Transport.Packet.{seal_packet, open_packet}
use remote_au.Transport.Packet.RoundTrip.{open_packet-seal_packet}
use remote_au.Transport.Receiver.Feedback.{
  starvations_of, sent_feedback, seal_feedback, feedback_to,
}
use remote_au.Transport.Receiver.Loss.{recv_span, probe_recv_spans}
use remote_au.Transport.Receiver.Peer.{JitterFloat, Peer, starvations_seen, feedback_of}

recv_span_fits : (bytes first last : ℕ) → recv_span bytes first last < 2 ^ 32
unfolding recv_span
recv_span_fits bytes first last = ground arith

spans_fit : (bytes first last : Steps) → StepsFit (probe_recv_spans bytes first last)
unfolding probe_recv_spans
spans_fit bytes first last = (
  recv_span_fits _ _ _,
  recv_span_fits _ _ _,
  recv_span_fits _ _ _,
  recv_span_fits _ _ _,
  recv_span_fits _ _ _,
)

module _ (j : JitterFloat) where
  -- The words of a peer are in the range of their types.
  pub record PeerFits (p : Peer j) : Type 0 where
    pub latest_send_ts : p.latest_send_ts < 2 ^ 64
    pub highest : p.account.max_audio_seq < 2 ^ 64
    pub received : p.account.received < 2 ^ 32
    pub lost : p.account.lost < 2 ^ 32
    pub probe_gen : p.probe_gen < 2 ^ 32
    pub probe_bytes : StepsFit p.probe_bytes

  feedback_of-Fits :
      (p : Peer j) (starvations clock : ℕ)
      → PeerFits p
      → FeedbackFits (feedback_of j p starvations clock)
  unfolding feedback_of
  feedback_of-Fits p starvations clock h = record {
    echo_send_ts_us = h.latest_send_ts;
    delay_us = omega arith;
    echo_seq = h.highest;
    received = h.received;
    lost = h.lost;
    jitter_us = omega (arith, j.min_as_u32_fits p.jitter);
    underruns = omega arith;
    buffer_ms = omega arith;
    probe_gen = h.probe_gen;
    probe_bytes = h.probe_bytes;
    probe_recv_span_us = spans_fit p.probe_bytes p.probe_recv_first_us p.probe_recv_last_us;
  }

module _ (crates : Crates) (documented : Documented crates) (hex_encode : List ℕ → List ℕ)
    (j : JitterFloat) (g : GainFloat) where
  -- The feedback of a round of the loop.
  abbrev pub round_feedback : List ℕ → Peer j → Mixer g → ℕ → FeedbackBody
  round_feedback session p m clock =
      let starvations = starvations_of crates hex_encode j g (hex_encode session) m.streams in
      feedback_of j (starvations_seen j p starvations) starvations clock

  pub feedback_to-Sends :
      (epoch session : List ℕ) (p : Peer j) (m : Mixer g) (now clock : ℕ)
      → PeerFits j p
      → length epoch ≡ 16
      → length session ≡ 16
      → p.send_counter < u64_max
      → let out = feedback_to crates hex_encode j g epoch session p m now clock in
        let body = round_feedback session p m clock in
        (packet : List ℕ) × (out.2 ≡ (p.addr, packet) ∷ [])
        × (out.0.send_counter ≡ p.send_counter + 1)
        × (decode_feedback (encode_feedback body) ≡ some body)
        × (open_packet crates p.keys.receiver_to_sender packet
            ≡ some (record {
              kind = kind_feedback;
              epoch = epoch;
              session = session;
              counter = p.send_counter + 1;
              body = encode_feedback body;
            }))
  unfolding feedback_to seal_feedback sent_feedback starvations_seen
  feedback_to-Sends epoch session p m now clock fits he hs left =
      let starvations = starvations_of crates hex_encode j g (hex_encode session) m.streams in
      let body = round_feedback session p m clock in
      let next : sat_add u64_max p.send_counter 1 ≡ p.send_counter + 1 = omega arith in
      let nonzero : (p.send_counter + 1 == 0) ≡ false = ground arith in
      let (size, decoded) = decode_feedback-encode_feedback body (
        feedback_of-Fits j (starvations_seen j p starvations) starvations clock (record {
          latest_send_ts = fits.latest_send_ts;
          highest = fits.highest;
          received = fits.received;
          lost = fits.lost;
          probe_gen = fits.probe_gen;
          probe_bytes = fits.probe_bytes;
        })) in
      let (packet, sealed, opens) =
        >>=-eq-some
          (seal_packet crates p.keys.receiver_to_sender epoch session (p.send_counter + 1)
            kind_feedback (encode_feedback body))
          (open_packet crates p.keys.receiver_to_sender)
          (open_packet-seal_packet crates documented p.keys.receiver_to_sender epoch session
            (p.send_counter + 1) kind_feedback (encode_feedback body) (omega arith) (omega arith) he
            hs (omega arith) (omega arith) (omega (arith, size))) in
      (packet, simp (next, nonzero, sealed) refl, simp (next, nonzero, sealed) refl, decoded, opens)
