-- ===== src/Mixer/Jitter/Pull/Loop.antt =====
-- The loop of `pull`, from the first round to the last.
use remote_au.Common.{
  ℕ, zero, suc, ◌+◌, ◌-◌, ◌*◌, ◌/◌, ◌≤◌, ◌<◌, ◌≡◌, refl, ap, ◌∙◌, inl, inr, true, false, none, some,
  List, length, replicate, ltb, min, u64_max, arith, Bool-cases, Option-cases, ltb→lt,
}
use remote_au.Mixer.Jitter.{JitterBuffer, is_none}
use remote_au.Mixer.Jitter.Pull.{Pulling, round, pull_loop, play, pull, splice}
use remote_au.Mixer.Jitter.Valid.{Valid}
use remote_au.Mixer.Jitter.Pull.Round.{
  counted-Valid, seq_or, seq_or, position, Pulled, Rounded, round-Rounded,
}

pull_loop_idle :
    (fuel frames now : ℕ) (p : Pulling) → p.buffer.play_seq ≡ none → pull_loop fuel frames now p ≡ p
unfolding pull_loop
pull_loop_idle zero frames now p e = refl
pull_loop_idle (suc fuel) frames now p e = ground arith

-- A round of the loop inside a packet.
pull_loop_step :
    (fuel frames now : ℕ) (p : Pulling) (seq : ℕ)
    → p.done < frames
    → p.buffer.play_seq ≡ some seq
    → p.buffer.play_off < p.buffer.packet_frames
    → pull_loop (suc fuel) frames now p
      ≡ pull_loop fuel frames now (
          round frames now p seq p.buffer.play_off
            (min (p.buffer.packet_frames - p.buffer.play_off) (frames - p.done)))
unfolding pull_loop
pull_loop_step fuel frames now p seq h e o =
    let off : min p.buffer.play_off p.buffer.packet_frames ≡ p.buffer.play_off = omega arith in
    ground (arith, off)

-- The rest of the loop, behind a round.
after_round :
    (fuel frames now : ℕ) (p : Pulling) {q : Pulling} (n : ℕ)
    → ((k : Pulling)
        → Valid k.buffer
        → k.done ≤ frames
        → frames - k.done ≤ fuel
        → is_none k.buffer.play_seq ≡ false
        → seq_or k.buffer.play_seq + (frames - k.done) ≤ u64_max
        → Pulled frames k (pull_loop fuel frames now k))
    → seq_or p.buffer.play_seq + (frames - p.done) ≤ u64_max
    → Rounded p n q
    → 1 ≤ n
    → n ≤ frames - p.done
    → frames - p.done ≤ suc fuel
    → Pulled frames p (pull_loop fuel frames now q)
after_round fuel frames now p {q} n rest hw r h1 h2 hf = elim r.either [
  | inl (done, starved, pos, some_play, near) ↦
      let s =
        rest q r.valid (omega (arith, done)) (omega (arith, done)) some_play
          (omega (arith, done, near)) in
      record {
        valid = s.valid;
        enough = s.enough;
        grows = omega (arith, s.grows, done);
        same_frames = s.same_frames ∙ r.same_frames;
        same_size = s.same_size ∙ r.same_size;
        stops = s.stops;
        moved = λ h. omega (arith, s.moved h, pos, done);
      }
  | inr (done, starved, idle) ↦ rw (pull_loop_idle fuel frames now q idle) (record {
    valid = r.valid;
    enough = omega (arith, done);
    grows = omega (arith, done);
    same_frames = r.same_frames;
    same_size = r.same_size;
    stops = inr starved;
    moved = λ h. cc;
  })
]

pull_loop-Pulled :
    (fuel frames now : ℕ) (p : Pulling)
    → Valid p.buffer
    → p.done ≤ frames
    → frames - p.done ≤ fuel
    → is_none p.buffer.play_seq ≡ false
    → seq_or p.buffer.play_seq + (frames - p.done) ≤ u64_max
    → Pulled frames p (pull_loop fuel frames now p)
unfolding pull_loop
pull_loop-Pulled zero frames now p v hd hf hp hw = record {
  valid = v;
  enough = hd;
  grows = omega arith;
  same_frames = refl;
  same_size = refl;
  stops = inl (omega arith);
  moved = λ _. refl;
}
pull_loop-Pulled (suc fuel) frames now p v hd hf hp hw = elim (Bool-cases (ltb p.done frames)) [
  | inr all ↦
      rw (all, pull_loop)
        (record {
          valid = v;
          enough = hd;
          grows = omega arith;
          same_frames = refl;
          same_size = refl;
          stops = inl (ground arith);
          moved = λ _. refl;
        })
  | inl more ↦ elim (Option-cases p.buffer.play_seq) [
    | inl idle ↦ absurd (ground arith)
    | inr (seq, e) ↦
        let n : ℕ = min (p.buffer.packet_frames - p.buffer.play_off) (frames - p.done) in
        let at : seq_or p.buffer.play_seq ≡ seq = ap seq_or e in
        let step = round-Rounded frames now p seq n v e (ground arith) (omega arith) in
        rw (pull_loop_step fuel frames now p seq (ground arith) e v.shape.inside) (
          after_round fuel frames now p n (λ q. pull_loop-Pulled fuel frames now q) hw step
            (omega (arith, v.shape.inside, ltb→lt _ _ more)) (omega arith) hf)
  ]
]

play-Pulled :
    (b : JitterBuffer) (cleared : List ℕ) (frames now : ℕ)
    → Valid b
    → b.primed ≡ true
    → seq_or b.play_seq + frames ≤ u64_max
    → Pulled frames (record { buffer = b; done = 0; dst = cleared }) (play b cleared frames now)
unfolding play
play-Pulled b cleared frames now v primed h =
    let r =
      pull_loop-Pulled (2 * frames + 1) frames now
        (record { buffer = record b { started = true }; done = 0; dst = cleared })
        (counted-Valid b b.underruns b.losses b.residence_us true v) (omega arith) (omega arith)
        (v.shape.playing primed) (omega arith) in
    record {
      valid = r.valid;
      enough = r.enough;
      grows = r.grows;
      same_frames = r.same_frames;
      same_size = r.same_size;
      stops = r.stops;
      moved = r.moved;
    }

reaches :
    {frames : ℕ} {b : JitterBuffer} {cleared : List ℕ} {out : Pulling}
    → Pulled frames (record { buffer = b; done = 0; dst = cleared }) out
    → out.buffer.starved ≡ false
    → position out.buffer ≡ position b + frames
reaches r wet = elim r.stops [
  | inl all ↦ omega (arith, r.moved wet, all)
  | inr dry ↦ absurd (ground arith)
]

-- `pull` of some frames on a valid buffer, its play position that much below the end of the u64 range,
-- leaves a valid buffer, and reports the wanted frames that fit `dst`. A primed buffer that does not
-- starve has moved its play position by exactly those frames: the loop ran to its end, whatever was
-- missing. A buffer that is not primed stays as it is.
pub pull-Valid :
    (b : JitterBuffer) (dst : List ℕ) (wanted now : ℕ)
    → Valid b
    → seq_or b.play_seq + wanted ≤ u64_max
    → let (q, out, frames) = pull b dst wanted now in
      Valid q
      × (frames ≡ min wanted (length dst / b.bytes_per_frame))
      × (b.primed ≡ true → q.starved ≡ false → position q ≡ position b + frames)
      × (b.primed ≡ false → q ≡ b)
unfolding pull
pull-Valid b dst wanted now v h = elim (Bool-cases b.primed) [
  | inl primed ↦
      let r =
        play-Pulled b
          (splice dst 0
            (replicate (min wanted (length dst / b.bytes_per_frame) * b.bytes_per_frame) 0))
          (min wanted (length dst / b.bytes_per_frame)) now v primed (omega arith) in
      simp primed (r.valid, refl, (λ _ wet. reaches r wet), λ h. cc)
  | inr waiting ↦ simp waiting (v, refl, (λ h. cc), λ _. refl)
]
