-- ===== src/Audio/Playback/Counts.antt =====
-- The counters of the playback callback (src/audio/playback.rs) over its chunks.
use remote_au.Common.{
  not, ◌||◌, ◌*◌, sym, ℕ, ◌+◌, ◌^◌, ◌%◌, ◌≤◌, ◌<◌, ◌≡◌, refl, inl, inr, List, [], ◌∷◌, map, ltb,
  max, length, ◌==◌, if◌then◌else◌, Bool-cases, arith,
}
use remote_au.Audio.Playback.Samples.{samples}
use remote_au.Common.Int.{ℤ, pos, negsuc}
use remote_au.Protocol.Codec.Nibble.{i16_from_le}
use remote_au.Audio.Playback.{Counters, no_counts, nonzero_samples, silent, heard, counted_pull}

-- The chunks played, the newest first: the bytes that `pull` wrote, and the frames.
abbrev pub History : Type 0
History = List (List ℕ × ℕ)

-- The counters after a history.
pub counted : History → Counters
counted [] = no_counts
counted ((raw, frames) ∷ older) = counted_pull (counted older) raw frames

-- The samples that are not 0, of those that bytes hold.
abbrev pub sounding : List ℤ → ℕ
sounding [] = 0
sounding (pos n ∷ zs) = if n == 0 then sounding zs else 1 + sounding zs
sounding (negsuc n ∷ zs) = 1 + sounding zs

sounding-i16 :
    (lo hi : ℕ) (zs : List ℤ)
    → sounding (i16_from_le lo hi ∷ zs)
      ≡ (if not (lo == 0) || not (hi == 0) then 1 + sounding zs else sounding zs)
unfolding i16_from_le
sounding-i16 lo hi zs = elim (Bool-cases (ltb (lo + hi * 256) 32768)) [
  | inl low ↦ simp low (ground arith)
  | inr high ↦ simp high (ground arith)
]

nonzero_samples-samples : (raw : List ℕ) → nonzero_samples raw ≡ sounding (samples raw)
unfolding nonzero_samples
nonzero_samples-samples [] = refl
nonzero_samples-samples (lo ∷ []) = refl
nonzero_samples-samples (lo ∷ hi ∷ raw) =
    rw (nonzero_samples-samples raw) (sym (sounding-i16 lo hi (samples raw)))

abbrev pub total_frames : History → ℕ
total_frames [] = 0
total_frames ((raw, frames) ∷ older) = frames + total_frames older

abbrev pub total_nonzero : History → ℕ
total_nonzero [] = 0
total_nonzero ((raw, frames) ∷ older) = sounding (samples raw) + total_nonzero older

-- The frames since the last chunk that was not silent.
abbrev pub quiet_frames : History → ℕ
quiet_frames [] = 0
quiet_frames ((raw, frames) ∷ older) =
    if sounding (samples raw) == 0 then frames + quiet_frames older else 0

-- The same, but none before the first chunk that is not silent.
abbrev pub silence : History → ℕ
silence h = if total_nonzero h == 0 then 0 else quiet_frames h

-- The history as it was after each chunk, and at the start.
abbrev pub moments : History → List History
moments [] = [] ∷ []
moments (chunk ∷ older) = (chunk ∷ older) ∷ moments older

abbrev pub maximum : List ℕ → ℕ
maximum [] = 0
maximum (n ∷ ns) = max n (maximum ns)

silence-heard : (h : History) → 0 < total_nonzero h → silence h ≡ quiet_frames h
silence-heard h some_heard = ground arith

silence-unheard : (h : History) → total_nonzero h ≡ 0 → silence h ≡ 0
silence-unheard h none_heard = ground arith

quiet_frames-silent :
    (raw : List ℕ) (frames : ℕ) (h : History)
    → sounding (samples raw) ≡ 0
    → quiet_frames ((raw, frames) ∷ h) ≡ frames + quiet_frames h
quiet_frames-silent raw frames h none_heard = ground arith

record Counted (h : History) (c : Counters) : Type 0 where
  callbacks : c.callbacks ≡ length h % 2 ^ 64
  frames : c.frames ≡ total_frames h
  nonzero : c.nonzero ≡ total_nonzero h
  run : c.silent_run ≡ silence h
  longest : c.max_silent_run ≡ maximum (map silence (moments h))
  within : quiet_frames h ≤ total_frames h

counted_pull-Counted :
    (h : History) (c : Counters) (raw : List ℕ) (frames : ℕ)
    → Counted h c
    → total_frames h + frames < 2 ^ 64
    → total_nonzero h + sounding (samples raw) < 2 ^ 64
    → Counted ((raw, frames) ∷ h) (counted_pull c raw frames)
unfolding counted_pull heard silent
counted_pull-Counted h c raw frames k room sound =
    let same = nonzero_samples-samples raw in
    elim (Bool-cases (ltb 0 (nonzero_samples raw))) [
      | inl loud ↦ simp loud (record {
        callbacks = omega (arith, k.callbacks);
        frames = omega (arith, k.frames);
        nonzero = omega (arith, k.nonzero);
        run = ground arith;
        longest = ground (arith, k.longest);
        within = ground (arith, k.within);
      })
      | inr quiet ↦ simp quiet (elim (Bool-cases (ltb 0 c.nonzero)) [
        | inl after ↦
            let some_heard : 0 < total_nonzero h = ground (arith, k.nonzero) in
            let none_heard : sounding (samples raw) ≡ 0 = ground arith in
            let before = silence-heard h some_heard in
            let now = silence-heard ((raw, frames) ∷ h) (omega arith) in
            let grown = quiet_frames-silent raw frames h none_heard in
            simp after (record {
              callbacks = omega (arith, k.callbacks);
              frames = omega (arith, k.frames);
              nonzero = omega (arith, k.nonzero);
              run = omega (arith, k.run, k.within, before, now, grown);
              longest = omega (arith, k.longest, k.run, k.within, before, now, grown);
              within = omega (arith, k.within, grown);
            })
        | inr before ↦
            let none_before : total_nonzero h ≡ 0 = ground (arith, k.nonzero) in
            let none_heard : sounding (samples raw) ≡ 0 = ground arith in
            let earlier = silence-unheard h none_before in
            let now = silence-unheard ((raw, frames) ∷ h) (omega arith) in
            let grown = quiet_frames-silent raw frames h none_heard in
            simp before (record {
              callbacks = omega (arith, k.callbacks);
              frames = omega (arith, k.frames);
              nonzero = omega (arith, k.nonzero);
              run = omega (arith, k.run, earlier, now);
              longest = omega (arith, k.longest, now);
              within = omega (arith, k.within, grown);
            })
      ])
    ]

counted-Counted :
    (h : History) → total_frames h < 2 ^ 64 → total_nonzero h < 2 ^ 64 → Counted h (counted h)
unfolding counted
counted-Counted [] room sound = record {
  callbacks = refl;
  frames = refl;
  nonzero = refl;
  run = refl;
  longest = refl;
  within = omega arith;
}
counted-Counted ((raw, frames) ∷ older) room sound =
    counted_pull-Counted older (counted older) raw frames
      (counted-Counted older (omega (arith, room)) (omega (arith, sound))) (omega (arith, room))
      (omega (arith, sound))

-- From the start, over any chunks with fewer than 2^64 frames and fewer than 2^64 samples that are not 0, the callbacks are counted modulo 2^64, and the frames and those samples exactly. The present run of silence is the frames since the last chunk with such a sample, and 0 before the first of them; the longest is the greatest run that any chunk left.
pub counted_lem :
    (h : History)
    → total_frames h < 2 ^ 64
    → total_nonzero h < 2 ^ 64
    → let c = counted h in
      (c.callbacks ≡ length h % 2 ^ 64)
      × (c.frames ≡ total_frames h)
      × (c.nonzero ≡ total_nonzero h)
      × (c.silent_run ≡ silence h)
      × (c.max_silent_run ≡ maximum (map silence (moments h)))
counted_lem h room sound =
    let k = counted-Counted h room sound in (k.callbacks, k.frames, k.nonzero, k.run, k.longest)
