-- ===== src/Crypto/Replay/Taken.antt =====
-- Windows reached by any calls, and the numbers that one has taken.
use remote_au.Common.{ℕ, ◌+◌, ◌<◌, ◌≡◌, ◌∙◌, true, false, List, [], ◌∷◌, arith}
use remote_au.Crypto.Replay.{ReplayWindow, new, commit, commit_all}
use remote_au.Crypto.Replay.Safety.{commit-above}
use remote_au.Crypto.Replay.Reference.{contains, accepts, remember}
use remote_au.Crypto.Replay.Refine.{Models, new-Models, commit-Steps}

abbrev pub IsWindow : ReplayWindow → Type 0
IsWindow r = (taken : List ℕ) × Models r taken

abbrev pub Took : ReplayWindow → ℕ → Type 0
Took r seq = (taken : List ℕ) × Models r taken × (contains seq taken ≡ true)

pub new-IsWindow : (wanted : ℕ) → IsWindow (new wanted)
new-IsWindow wanted = ([], new-Models wanted)

pub commit-IsWindow : (r : ReplayWindow) (seq : ℕ) → IsWindow r → IsWindow (commit r seq).0
commit-IsWindow r seq (taken, m) =
    (remember r.window taken seq, (commit-Steps r taken seq m).models)

-- A call forgets no number.
pub commit-Took : (r : ReplayWindow) (seq s : ℕ) → Took r s → Took (commit r seq).0 s
commit-Took r seq s (taken, m, h) =
    (remember r.window taken seq, (commit-Steps r taken seq m).models, ground arith)

pub commit_takes :
    (r : ReplayWindow) (seq : ℕ) → IsWindow r → (commit r seq).1 ≡ true → Took (commit r seq).0 seq
commit_takes r seq (taken, m) e =
    let st = commit-Steps r taken seq m in
    let yes_seq : accepts r.window taken seq ≡ true = let a = st.answer in cc in
    (remember r.window taken seq, st.models, rw yes_seq (ground arith))

pub Took-refuses : (r : ReplayWindow) (seq : ℕ) → Took r seq → (commit r seq).1 ≡ false
Took-refuses r seq (taken, m, h) = (commit-Steps r taken seq m).answer ∙ rw h (ground arith)

-- A new window takes any number but 0, and then the next.
pub new_takes : (wanted seq : ℕ) → 0 < seq → (commit (new wanted) seq).1 ≡ true
unfolding commit_all
new_takes wanted seq h = commit-above wanted [] seq h

pub new_takes_next : (wanted seq : ℕ) → (commit (commit (new wanted) seq).0 (seq + 1)).1 ≡ true
unfolding commit_all
new_takes_next wanted seq = commit-above wanted (seq ∷ []) (seq + 1) (omega arith)
