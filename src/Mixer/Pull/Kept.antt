-- ===== src/Mixer/Pull/Kept.antt =====
-- The mixer's call of the playback callback (`pull` of src/mixer/mod.rs) on sound streams.
use native.Mathlib.Nat.{div-mul-le_self, mul-le-mul_right}
use remote_au.Common.{
  ℕ, zero, suc, ◌+◌, ◌*◌, ◌/◌, ◌≤◌, ◌≡◌, refl, ap, ◌∙◌, Bool, true, false, ◌==◌, List, [], ◌∷◌,
  ◌++◌, length, take, drop, replicate, if◌then◌else◌, min, All, u64_max, length-append,
  length-replicate, length-drop, drop_append_of, arith,
}
use remote_au.Mixer.Jitter.Pull.{splice, pull as pull_buffer}
use remote_au.Mixer.Jitter.Pull.Loop.{pull-Valid}
use remote_au.Mixer.Jitter.Pull.Round.{seq_or}
use remote_au.Mixer.Pull.{MixFloat, Pulled, grown, mix, write, mix_streams, mixed, pull}
use remote_au.Mixer.Streams.{GainFloat, Stream, Mixer}
use remote_au.Mixer.Streams.Kept.{Kept}
use remote_au.Mixer.Streams.Sound.{Sound, kept}
use remote_au.Protocol.Format.{AudioFormat, bytes_per_frame}

-- A cleared prefix.
length-splice :
    (out : List ℕ) (k : ℕ) → k ≤ length out → length (splice out 0 (replicate k 0)) ≡ length out
length-splice out k h =
    let r : length (replicate {A = ℕ} k 0) ≡ k = length-replicate {A = ℕ} k 0 in
    let d = length-drop (0 + length (replicate {A = ℕ} k 0)) out in
    let both =
      length-append (replicate {A = ℕ} k 0) (drop (0 + length (replicate {A = ℕ} k 0)) out) in
    omega (arith, r, d, both)

drop-splice : (out : List ℕ) (k : ℕ) → drop k (splice out 0 (replicate k 0)) ≡ drop k out
drop-splice out k =
    let r : length (replicate {A = ℕ} k 0) ≡ k = length-replicate {A = ℕ} k 0 in
    let e : 0 + length (replicate {A = ℕ} k 0) ≡ k = omega (arith, r) in
    drop_append_of k (replicate k 0) _ r ∙ ap (λ (n : ℕ). drop n out) e

module _ (g : GainFloat) (x : MixFloat g) where
  length-mix :
      (sums : List x.Sum) (bytes : List ℕ) (gain : g.Float) (n : ℕ)
      → length (mix g x sums bytes gain n) ≡ length sums
  unfolding mix
  length-mix [] bytes gain n = refl
  length-mix (s ∷ sums) bytes gain zero = refl
  length-mix (s ∷ sums) [] gain (suc n) = refl
  length-mix (s ∷ sums) (lo ∷ []) gain (suc n) = refl
  length-mix (s ∷ sums) (lo ∷ hi ∷ bytes) gain (suc n) = ap suc (length-mix sums bytes gain n)

  length-write :
      (sums : List x.Sum) (master : g.Float) (out : List ℕ)
      → length (write g x sums master out) ≡ length out
  unfolding write
  length-write [] master out = refl
  length-write (s ∷ sums) master [] = refl
  length-write (s ∷ sums) master (lo ∷ []) = refl
  length-write (s ∷ sums) master (lo ∷ hi ∷ out) =
      ap (λ (n : ℕ). suc (suc n)) (length-write sums master out)

  drop-write :
      (sums : List x.Sum) (master : g.Float) (out : List ℕ) (k : ℕ)
      → 2 * length sums ≤ k
      → drop k (write g x sums master out) ≡ drop k out
  unfolding write
  drop-write [] master out k h = refl
  drop-write (s ∷ sums) master [] k h = refl
  drop-write (s ∷ sums) master (lo ∷ []) k h = refl
  drop-write (s ∷ sums) master (lo ∷ hi ∷ out) zero h = absurd (omega arith)
  drop-write (s ∷ sums) master (lo ∷ hi ∷ out) (suc zero) h = absurd (omega arith)
  drop-write (s ∷ sums) master (lo ∷ hi ∷ out) (suc (suc k)) h =
      drop-write sums master out k (omega arith)

  -- No play position runs out of the u64 range within some frames.
  abbrev pub Ahead : ℕ → List (Stream g) → Type 0
  Ahead frames = All (λ s. seq_or s.buffer.play_seq + frames ≤ u64_max)

  mix_streams-Kept :
      (bpf channels frames now : ℕ) (streams : List (Stream g)) (frame_buf : List ℕ)
      (scratch : List x.Sum)
      → Ahead frames streams
      → Kept g streams (mix_streams g x bpf channels frames now streams frame_buf scratch).0
        × (length (mix_streams g x bpf channels frames now streams frame_buf scratch).2
            ≡ length scratch)
  unfolding mix_streams
  mix_streams-Kept bpf channels frames now [] frame_buf scratch a =
      (record { fewer = omega arith; apart = λ i h. h; distinct = λ d. d; buffered = λ b. b }, refl)
  mix_streams-Kept bpf channels frames now (s ∷ streams) frame_buf scratch a =
      let played = pull_buffer s.buffer (take (frames * bpf) frame_buf) frames now in
      let filled = played.1 ++ drop (frames * bpf) frame_buf in
      let added = mix g x scratch filled s.gain (min played.2 frames * channels) in
      let (k, l) =
        mix_streams-Kept bpf channels frames now streams filled
          (if played.2 == 0 then scratch else added) a.1 in
      (
        record {
          fewer = omega (arith, k.fewer);
          apart = λ i h. (h.0, k.apart i h.1);
          distinct = λ d. (k.apart s.id d.0, k.distinct d.1);
          buffered = λ b. (
            (pull-Valid s.buffer (take (frames * bpf) frame_buf) frames now b.0 a.0).0,
            k.buffered b.1,
          );
        },
        l
            ∙ length-if (played.2 == 0) scratch added
                (length-mix scratch filled s.gain (min played.2 frames * channels)),
      )
    where
      length-if :
          (b : Bool) (sums added : List x.Sum)
          → length added ≡ length sums
          → length (if b then sums else added) ≡ length sums
      length-if true sums added h = refl
      length-if false sums added h = h

  -- What a call leaves on a sound mixer.
  pub record Calls (m : Mixer g) (out : List ℕ) (asked : ℕ) (p : Pulled g x) : Type 0 where
    pub sound : Sound g p.mixer
    pub same_format : p.mixer.format ≡ m.format
    pub same_gain : p.mixer.master_gain ≡ m.master_gain
    pub same_length : length p.out ≡ length out
    pub untouched :
        drop (asked * bytes_per_frame m.format) p.out ≡ drop (asked * bytes_per_frame m.format) out

  Calls-if :
      (m : Mixer g) (out : List ℕ) (asked : ℕ) (b : Bool) (p q : Pulled g x)
      → Calls m out asked p
      → Calls m out asked q
      → Calls m out asked (if b then p else q)
  Calls-if m out asked true p q h k = h
  Calls-if m out asked false p q h k = k

  fewer-Ahead :
      (frames more : ℕ) (streams : List (Stream g))
      → frames ≤ more
      → Ahead more streams
      → Ahead frames streams
  fewer-Ahead frames more [] h a = tt
  fewer-Ahead frames more (s ∷ streams) h a =
      (omega (arith, h, a.0), fewer-Ahead frames more streams h a.1)

  samples_fit :
      (f : AudioFormat) (frames asked : ℕ)
      → frames ≤ asked
      → 2 * (frames * f.channels) ≤ asked * bytes_per_frame f
  unfolding bytes_per_frame
  samples_fit f frames asked h = grind (arith, mul-le-mul_right f.channels h)

  mixed-Calls :
      (m : Mixer g) (frame_buf out : List ℕ) (asked frames now : ℕ)
      → Sound g m
      → asked * bytes_per_frame m.format ≤ length out
      → frames ≤ asked
      → Ahead frames m.streams
      → Calls m out asked (
          mixed g x m frame_buf
            (splice out 0 (replicate (asked * bytes_per_frame m.format) 0))
            frames
            now)
  unfolding mixed
  mixed-Calls m frame_buf out asked frames now s fits h a =
      let bpf = bytes_per_frame m.format in
      let cleared = splice out 0 (replicate (asked * bpf) 0) in
      let grown_buf = grown g x frame_buf (frames * bpf) in
      let silent = replicate (frames * m.format.channels) x.silence in
      let (k, l) = mix_streams-Kept bpf m.format.channels frames now m.streams grown_buf silent a in
      let sums = (mix_streams g x bpf m.format.channels frames now m.streams grown_buf silent).2 in
      let count : length silent ≡ frames * m.format.channels =
        length-replicate (frames * m.format.channels) x.silence in
      let room = samples_fit m.format frames asked h in
      record {
        sound = kept g m _ k s;
        same_format = refl;
        same_gain = refl;
        same_length =
            length-write sums m.master_gain cleared ∙ length-splice out (asked * bpf) fits;
        untouched =
            drop-write sums m.master_gain cleared (asked * bpf) (omega (arith, l, count, room))
            ∙ drop-splice out (asked * bpf);
      }

  -- The playback callback's call of `pull`, on streams whose play positions are that many frames below the end of the u64 range, leaves the streams sound, each with a valid jitter buffer, and the format and master gain as they are. It writes no byte behind the whole frames that it is asked for and that fit the output, and the output keeps its length.
  pub pull-Calls :
      (m : Mixer g) (frame_buf out : List ℕ) (frame_count now : ℕ) (locked : Bool)
      → Sound g m
      → Ahead frame_count m.streams
      → Calls m out
          (min frame_count (length out / bytes_per_frame m.format))
          (pull g x m frame_buf out frame_count now locked)
  unfolding pull
  pull-Calls m frame_buf out frame_count now locked s a =
      let bpf = bytes_per_frame m.format in
      let asked = min frame_count (length out / bpf) in
      let less : asked ≤ length out / bpf = omega arith in
      let fits : asked * bpf ≤ length out =
        omega (arith, mul-le-mul_right bpf less, div-mul-le_self (length out) bpf) in
      Calls-if m out asked _ _ _
        (record {
          sound = s;
          same_format = refl;
          same_gain = refl;
          same_length = refl;
          untouched = refl;
        })
        (Calls-if m out asked locked _ _
          (record {
            sound = s;
            same_format = refl;
            same_gain = refl;
            same_length = length-splice out (asked * bpf) fits;
            untouched = drop-splice out (asked * bpf);
          })
          (mixed-Calls m frame_buf out asked (min asked 4096) now s fits (omega arith)
            (fewer-Ahead (min asked 4096) frame_count m.streams (omega arith) a)))
