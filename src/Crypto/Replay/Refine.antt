-- ===== src/Crypto/Replay/Refine.antt =====
-- The bitmap window answers as a reference does that remembers every number it took.
use remote_au.Common.{
  ℕ, ◌+◌, ◌-◌, ◌*◌, ◌/◌, ◌≤◌, ◌<◌, ◌≡◌, refl, sym, ap, ◌∙◌, inl, inr, Bool, true, false, List, [],
  ◌∷◌, replicate, length, leb, ltb, clamp, ◌==◌, if◌then◌else◌, Bool-cases, arith, max,
  length-replicate,
}
use remote_au.Crypto.Replay.{ReplayWindow, new, mark, clear, slide, commit, commit_all}
use remote_au.Crypto.Replay.Bitmap.{bit_at-replicate}
use remote_au.Crypto.Replay.Reference.{
  contains, highest, accepts, remember, answers, remember_all, contains-le-highest,
}
use remote_au.Crypto.Replay.Moves.{Holds, Marks, mark-Marks, slide-Holds}

-- The lowest number that the window still holds.
abbrev pub floor : ℕ → List ℕ → ℕ
floor window taken = if highest taken == 0 then 0 else max (highest taken - (window - 1)) 1

pub record Models (r : ReplayWindow) (taken : List ℕ) : Type 0 where
  pub wide : 1 ≤ r.window
  pub room : r.window ≤ 64 * length r.bits
  pub low : r.base ≡ floor r.window taken
  pub started : contains 0 taken ≡ false
  pub holds : 0 < r.base → Holds r taken

-- A window that models what it took: the answer to the next number, and the window after it.
pub record Steps (r : ReplayWindow) (taken : List ℕ) (seq : ℕ) (out : ReplayWindow × Bool)
    : Type 0 where
  pub answer : out.1 ≡ accepts r.window taken seq
  pub window : out.0.window ≡ r.window
  pub models : Models out.0 (remember r.window taken seq)

-- `commit` ends in `mark` on a window `q` that holds `taken` and has room for `seq`.
marked-Steps :
    (r q : ReplayWindow) (taken : List ℕ) (seq : ℕ) (out : ReplayWindow × Bool)
    → Models r taken
    → q.window ≡ r.window
    → length q.bits ≡ length r.bits
    → 0 < seq
    → highest taken < seq + r.window
    → q.base ≡ floor r.window (if contains seq taken then taken else seq ∷ taken)
    → Marks q taken seq out
    → Steps r taken seq out
marked-Steps r q taken seq out m hw hl pos top low k = elim (Bool-cases (contains seq taken)) [
  | inl old ↦
      let keep : accepts r.window taken seq ≡ false = ground arith in
      record {
        answer = k.took ∙ ground arith;
        window = k.window ∙ hw;
        models = rw keep (record {
          wide = omega (arith, hw);
          room = omega (arith, hw);
          low = k.base ∙ (rw old at low) ∙ ap (λ (w : ℕ). floor w taken) (sym (k.window ∙ hw));
          started = m.started;
          holds = λ _. rw old at k.holds;
        });
      }
  | inr fresh ↦
      let take_it : accepts r.window taken seq ≡ true = ground arith in
      record {
        answer = k.took ∙ ground arith;
        window = k.window ∙ hw;
        models = rw take_it (record {
          wide = omega (arith, hw);
          room = omega (arith, hw);
          low =
              k.base
              ∙ (rw fresh at low)
              ∙ ap (λ (w : ℕ). floor w (seq ∷ taken)) (sym (k.window ∙ hw));
          started = ground arith;
          holds = λ _. rw fresh at k.holds;
        });
      }
]

-- The three ways to `mark`: the first number, one past the window, and one inside it.
first-Steps :
    (r : ReplayWindow) (taken : List ℕ) (seq : ℕ)
    → Models r taken
    → 0 < seq
    → r.base ≡ 0
    → Steps r taken seq (mark (clear (record r { base = max (seq - (r.window - 1)) 1 })) seq)
unfolding clear
first-Steps r taken seq m pos e =
    let none_yet : highest taken ≡ 0 = ground arith in
    let fresh : contains seq taken ≡ false = ground (arith, contains-le-highest seq taken) in
    let first = max (seq - (r.window - 1)) 1 in
    let size : length (replicate {A = ℕ} (length r.bits) 0) ≡ length r.bits =
      length-replicate (length r.bits) _ in
    marked-Steps r (clear (record r { base = first })) taken seq _ m refl size pos (omega arith)
      (rw fresh (ground arith))
      (mark-Marks _ taken seq (omega (arith, size))
        (λ i hi.
          bit_at-replicate (length r.bits) i
          ∙ ground (arith, contains-le-highest (first + i) taken))
        (omega arith) (omega arith))

ahead-Steps :
    (r : ReplayWindow) (taken : List ℕ) (seq : ℕ)
    → Models r taken
    → 0 < r.base
    → r.base + r.window ≤ seq
    → Steps r taken seq (mark (slide r (seq - r.window + 1)) seq)
ahead-Steps r taken seq m pos h =
    let top : highest taken < r.base + r.window = ground arith in
    let fresh : contains seq taken ≡ false = ground (arith, contains-le-highest seq taken) in
    let (w, b, l, holds) =
      slide-Holds r taken (seq - r.window + 1) m.room (m.holds pos) (omega arith) top in
    marked-Steps r (slide r (seq - r.window + 1)) taken seq _ m w l (omega arith)
      (omega (arith, top)) (b ∙ rw fresh (ground arith))
      (mark-Marks _ taken seq (omega (arith, w, l)) holds (omega (arith, b)) (omega (arith, b, w)))

within-Steps :
    (r : ReplayWindow) (taken : List ℕ) (seq : ℕ)
    → Models r taken
    → 0 < r.base
    → r.base ≤ seq
    → seq < r.base + r.window
    → Steps r taken seq (mark r seq)
within-Steps r taken seq m pos h1 h2 =
    let top : highest taken < r.base + r.window = ground arith in
    marked-Steps r r taken seq _ m refl refl (omega arith) (omega (arith, top)) (ground arith)
      (mark-Marks r taken seq m.room (m.holds pos) h1 (omega arith))

pub commit-Steps :
    (r : ReplayWindow) (taken : List ℕ) (seq : ℕ)
    → Models r taken
    → Steps r taken seq (commit r seq)
unfolding commit
commit-Steps r taken seq m = elim (Bool-cases (seq == 0)) [
  | inl zero_seq ↦ rw zero_seq (record {
    answer = ground arith;
    window = refl;
    models = let no : accepts r.window taken seq ≡ false = ground arith in rw no m;
  })
  | inr pos ↦ rw pos (elim (Bool-cases (r.base == 0)) [
    | inl first ↦ rw first (first-Steps r taken seq m (ground arith) (ground arith))
    | inr later ↦ rw later (elim (Bool-cases (ltb seq r.base)) [
      | inl below ↦ rw below (record {
        answer = ground arith;
        window = refl;
        models = let no : accepts r.window taken seq ≡ false = ground arith in rw no m;
      })
      | inr above ↦ rw above (elim (Bool-cases (leb r.window (seq - r.base))) [
        | inl ahead ↦ rw ahead (ahead-Steps r taken seq m (ground arith) (ground arith))
        | inr within ↦
            rw within (within-Steps r taken seq m (ground arith) (ground arith) (ground arith))
      ])
    ])
  ])
]

pub new-Models : (wanted : ℕ) → Models (new wanted) []
unfolding new
new-Models wanted =
    let size : length (replicate {A = ℕ} ((clamp wanted 64 4096 + 63) / 64) 0)
        ≡ (clamp wanted 64 4096 + 63) / 64 =
      length-replicate _ _ in
    record {
      wide = ground arith;
      room = omega (arith, size);
      low = refl;
      started = refl;
      holds = λ h. absurd (omega arith);
    }

commit_all-Models :
    (w : ℕ) (r : ReplayWindow) (taken ss : List ℕ)
    → Models r taken
    → r.window ≡ w
    → ((commit_all r ss).1 ≡ answers w taken ss)
      × Models (commit_all r ss).0 (remember_all w taken ss)
      × ((commit_all r ss).0.window ≡ w)
unfolding commit_all
commit_all-Models w r taken [] m e = (refl, m, e)
commit_all-Models w r taken (s ∷ ss) m e =
    let st = commit-Steps r taken s m in
    let m' : Models (commit r s).0 (remember w taken s) = rw (← e) st.models in
    let (a, b, c) = commit_all-Models w (commit r s).0 (remember w taken s) ss m' (st.window ∙ e) in
    (rw (← a, ← e) (ap (λ (t : Bool). t ∷ (commit_all (commit r s).0 ss).1) st.answer), b, c)

-- From a new window on, the answers to any run of sequence numbers are the reference's: zero, a
-- number taken before, and one `window` or more below the highest taken are refused, all else taken.
pub commit_all-answers :
    (wanted : ℕ) (ss : List ℕ)
    → (commit_all (new wanted) ss).1 ≡ answers (clamp wanted 64 4096) [] ss
commit_all-answers wanted ss =
    (commit_all-Models (clamp wanted 64 4096) (new wanted) [] ss (new-Models wanted)
      (unfold new in refl)).0

pub commit_after :
    (wanted : ℕ) (ss : List ℕ) (s : ℕ)
    → (commit (commit_all (new wanted) ss).0 s).1
      ≡ accepts (clamp wanted 64 4096) (remember_all (clamp wanted 64 4096) [] ss) s
commit_after wanted ss s =
    let (a, m, w) =
      commit_all-Models (clamp wanted 64 4096) (new wanted) [] ss (new-Models wanted)
        (unfold new in refl) in
    (commit-Steps (commit_all (new wanted) ss).0 _ s m).answer
    ∙ ap (λ (k : ℕ). accepts k (remember_all (clamp wanted 64 4096) [] ss) s) w
