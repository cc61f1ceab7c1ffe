-- ===== src/Mixer/Jitter/Pull/Round.antt =====
-- One round of the loop of `pull`.
use remote_au.Common.{
  ℕ, ◌+◌, ◌-◌, ◌*◌, ◌≤◌, ◌<◌, ◌≡◌, refl, ap, ◌⊎◌, inl, inr, Bool, true, false, Option, none, some,
  leb, min, u64_max, arith, Bool-cases, Option-cases, leb→le,
}
use remote_au.Common.OrdMap.{
  Below, get, has_from, remove-Ascends, remove-Below, remove-Values, Below-weaken, length-remove-le,
}
use remote_au.Mixer.Jitter.{JitterBuffer, is_none, add_u64}
use remote_au.Mixer.Jitter.Pull.{Pulling, advance, starve, round}
use remote_au.Mixer.Jitter.Valid.{Valid, NearAt}

-- The invariant does not read the counters.
pub counted-Valid :
    (b : JitterBuffer) (u l r : ℕ) (st : Bool)
    → Valid b
    → Valid (record b { underruns = u; losses = l; residence_us = r; started = st })
counted-Valid b u l r st v = record {
  shape = record {
    frame_size = v.shape.frame_size;
    frame_count = v.shape.frame_count;
    packet_size = v.shape.packet_size;
    target_low = v.shape.target_low;
    target_high = v.shape.target_high;
    order = v.shape.order;
    words = v.shape.words;
    sizes = v.shape.sizes;
    inside = v.shape.inside;
    playing = v.shape.playing;
  };
  bounded = v.bounded;
  near = v.near;
}

advance-Valid :
    (b : JitterBuffer) (seq n : ℕ) → Valid b → b.play_seq ≡ some seq → Valid (advance b seq n)
unfolding advance
advance-Valid b seq n v e = elim (Bool-cases (leb b.packet_frames (b.play_off + n))) [
  | inl over ↦ simp over (record {
    shape = record {
      frame_size = v.shape.frame_size;
      frame_count = v.shape.frame_count;
      packet_size = v.shape.packet_size;
      target_low = v.shape.target_low;
      target_high = v.shape.target_high;
      order = remove-Ascends 0 seq b.slots v.shape.order;
      words = remove-Below _ seq b.slots v.shape.words;
      sizes = remove-Values _ seq b.slots v.shape.sizes;
      inside = omega (arith, v.shape.frame_count);
      playing = λ h. refl;
    };
    bounded = omega (arith, v.bounded, length-remove-le seq b.slots);
    near = (
      omega arith,
      remove-Below _ seq b.slots
          (Below-weaken (seq + b.target_packets + 2) _ b.slots (omega (arith, word)) close),
    );
  })
  | inr under ↦ simp under (record {
    shape = record {
      frame_size = v.shape.frame_size;
      frame_count = v.shape.frame_count;
      packet_size = v.shape.packet_size;
      target_low = v.shape.target_low;
      target_high = v.shape.target_high;
      order = v.shape.order;
      words = v.shape.words;
      sizes = v.shape.sizes;
      inside = ground arith;
      playing = v.shape.playing;
    };
    bounded = v.bounded;
    near = v.near;
  })
]
  where
    both : NearAt b.target_packets b.slots (some seq)
    both = rw e at v.near

    word : seq ≤ u64_max
    word = both.0

    close : Below (seq + b.target_packets + 2) b.slots
    close = both.1

starve-Valid : (b : JitterBuffer) (n : ℕ) → Valid b → Valid (starve b n)
unfolding starve
starve-Valid b n v = record {
  shape = record {
    frame_size = v.shape.frame_size;
    frame_count = v.shape.frame_count;
    packet_size = v.shape.packet_size;
    target_low = v.shape.target_low;
    target_high = v.shape.target_high;
    order = v.shape.order;
    words = v.shape.words;
    sizes = v.shape.sizes;
    inside = omega (arith, v.shape.frame_count);
    playing = λ h. cc;
  };
  bounded = v.bounded;
  near = tt;
}

abbrev pub seq_or : Option ℕ → ℕ
seq_or none = 0
seq_or (some seq) = seq

-- The play position, in frames.
abbrev pub position : JitterBuffer → ℕ
position b = seq_or b.play_seq * b.packet_frames + b.play_off

-- What rounds of the loop do from `p` on, `frames` being wanted.
pub record Pulled (frames : ℕ) (p out : Pulling) : Type 0 where
  pub valid : Valid out.buffer
  pub enough : out.done ≤ frames
  pub grows : p.done ≤ out.done
  pub same_frames : out.buffer.packet_frames ≡ p.buffer.packet_frames
  pub same_size : out.buffer.bytes_per_frame ≡ p.buffer.bytes_per_frame
  -- The loop's own tests ended it: all is done, or nothing was left to play.
  pub stops : (out.done ≡ frames) ⊎ (out.buffer.starved ≡ true)
  pub moved :
      out.buffer.starved ≡ false → position out.buffer + p.done ≡ position p.buffer + out.done

advance-fields :
    (b : JitterBuffer) (seq n : ℕ)
    → b.play_off < b.packet_frames
    → n ≤ b.packet_frames - b.play_off
    → seq < u64_max
    → b.play_seq ≡ some seq
    → ((advance b seq n).starved ≡ b.starved)
      × ((advance b seq n).packet_frames ≡ b.packet_frames)
      × ((advance b seq n).bytes_per_frame ≡ b.bytes_per_frame)
      × (position (advance b seq n) ≡ position b + n)
      × (is_none (advance b seq n).play_seq ≡ false)
      × (seq_or (advance b seq n).play_seq ≤ seq + 1)
unfolding advance
advance-fields b seq n h1 h2 h3 e = elim (Bool-cases (leb b.packet_frames (b.play_off + n))) [
  | inl over ↦
      simp over (
        refl,
        refl,
        refl,
        rw next (omega (arith, scaled, leb→le _ _ over)),
        refl,
        omega (arith, at),
      )
  | inr under ↦ simp under (refl, refl, refl, omega arith, ap is_none e, omega (arith, at))
]
  where
    at : seq_or b.play_seq ≡ seq
    at = ap seq_or e

    next : min u64_max (seq + 1) ≡ seq + 1
    next = omega arith

    scaled : seq_or b.play_seq * b.packet_frames ≡ seq * b.packet_frames
    scaled = ap (λ (t : ℕ). t * b.packet_frames) at

-- One round: either it plays or conceals `n` frames at `seq`, or it starves.
pub record Rounded (p : Pulling) (n : ℕ) (out : Pulling) : Type 0 where
  pub valid : Valid out.buffer
  pub same_frames : out.buffer.packet_frames ≡ p.buffer.packet_frames
  pub same_size : out.buffer.bytes_per_frame ≡ p.buffer.bytes_per_frame
  pub either :
      ((out.done ≡ p.done + n)
        × (out.buffer.starved ≡ p.buffer.starved)
        × (position out.buffer ≡ position p.buffer + n)
        × (is_none out.buffer.play_seq ≡ false)
        × (seq_or out.buffer.play_seq ≤ seq_or p.buffer.play_seq + 1))
      ⊎ ((out.done ≡ p.done) × (out.buffer.starved ≡ true) × (out.buffer.play_seq ≡ none))

pub round-Rounded :
    (frames now : ℕ) (p : Pulling) (seq n : ℕ)
    → Valid p.buffer
    → p.buffer.play_seq ≡ some seq
    → seq < u64_max
    → n ≤ p.buffer.packet_frames - p.buffer.play_off
    → Rounded p n (round frames now p seq p.buffer.play_off n)
unfolding round
round-Rounded frames now p seq n v e h1 h2 = elim (Option-cases (get seq b.slots)) [
  | inr (packet, found) ↦
      rw (found, round)
        (record {
          valid =
              advance-Valid _ seq n
                (counted-Valid b b.underruns b.losses (min (now - packet.arrived) u64_max) b.started
                  v)
                e;
          same_frames = (moves (min (now - packet.arrived) u64_max) b.underruns).1;
          same_size = (moves (min (now - packet.arrived) u64_max) b.underruns).2;
          either = inl (played (min (now - packet.arrived) u64_max) b.underruns);
        })
  | inl missing ↦
      rw (missing, round)
        (elim (Bool-cases (has_from seq b.slots)) [
          | inl later ↦ rw later (record {
            valid =
                advance-Valid _ seq n
                  (counted-Valid b (add_u64 b.underruns n) b.losses b.residence_us b.started v) e;
            same_frames = (moves b.residence_us (add_u64 b.underruns n)).1;
            same_size = (moves b.residence_us (add_u64 b.underruns n)).2;
            either = inl (played b.residence_us (add_u64 b.underruns n));
          })
          | inr nothing ↦ rw nothing (record {
            valid = starve-Valid b (frames - p.done) v;
            same_frames = unfold starve in refl;
            same_size = unfold starve in refl;
            either = inr (refl, unfold starve in refl, unfold starve in refl);
          })
        ])
]
  where
    open p use {buffer as b}

    heard : ℕ → ℕ → JitterBuffer
    heard r u = record b { residence_us = r; underruns = u }

    moves :
        (r u : ℕ)
        → ((advance (heard r u) seq n).starved ≡ b.starved)
          × ((advance (heard r u) seq n).packet_frames ≡ b.packet_frames)
          × ((advance (heard r u) seq n).bytes_per_frame ≡ b.bytes_per_frame)
          × (position (advance (heard r u) seq n) ≡ position b + n)
          × (is_none (advance (heard r u) seq n).play_seq ≡ false)
          × (seq_or (advance (heard r u) seq n).play_seq ≤ seq + 1)
    moves r u = advance-fields (heard r u) seq n v.shape.inside h2 h1 e

    played :
        (r u : ℕ)
        → (p.done + n ≡ p.done + n)
          × ((advance (heard r u) seq n).starved ≡ b.starved)
          × (position (advance (heard r u) seq n) ≡ position b + n)
          × (is_none (advance (heard r u) seq n).play_seq ≡ false)
          × (seq_or (advance (heard r u) seq n).play_seq ≤ seq_or b.play_seq + 1)
    played r u = let m = moves r u in (refl, m.0, m.3, m.4, omega (arith, m.5, ap seq_or e))
