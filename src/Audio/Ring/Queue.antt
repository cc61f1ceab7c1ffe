-- ===== src/Audio/Ring/Queue.antt =====
-- What the queue holds.
use remote_au.Common.{
  ℕ, suc, ◌-◌, ◌≤◌, ◌≡◌, refl, ap, ◌∙◌, inl, inr, List, [], ◌∷◌, ◌++◌, length, length-append, take,
  drop, min, max, leb, leb→lt, leb→le, Bool-cases, take-append-drop, arith,
}
use remote_au.Audio.Ring.{ByteRing, push_byte, push, pop_into}
use mathlib.Core.List.{append_assoc, append-nil}

-- The newest `k` of them.
abbrev pub last : ℕ → List ℕ → List ℕ
last k xs = drop (length xs - k) xs

abbrev pub room : ByteRing → ℕ
room r = max r.capacity 1

push_byte-last :
    (r : ByteRing) (b : ℕ) (bytes : List ℕ)
    → length r.deque ≤ room r
    → (length (push_byte r b).deque ≤ room r)
      × (last (room r) ((push_byte r b).deque ++ bytes) ≡ last (room r) (r.deque ++ (b ∷ bytes)))
unfolding push_byte
push_byte-last r b bytes h = elim (Bool-cases (leb r.capacity (length r.deque))) [
  | inl full ↦ rw full (oldest r.deque (leb→le r.capacity (length r.deque) full) h)
  | inr free ↦ rw free (
    omega (arith, length-append r.deque (b ∷ []), leb→lt r.capacity (length r.deque) free),
    ap (last (room r)) (append_assoc r.deque (b ∷ []) bytes),
  )
]
  where
    oldest :
        (d : List ℕ)
        → r.capacity ≤ length d
        → length d ≤ room r
        → (length (drop 1 d ++ (b ∷ [])) ≤ room r)
          × (last (room r) ((drop 1 d ++ (b ∷ [])) ++ bytes) ≡ last (room r) (d ++ (b ∷ bytes)))
    oldest [] c k = (omega arith, refl)
    oldest (x ∷ xs) c k =
        let ys : List ℕ = xs ++ (b ∷ bytes) in
        let more : suc (length ys - room r) ≡ suc (length ys) - room r =
          omega (arith, c, length-append xs (b ∷ bytes)) in
        (
          omega (arith, k, length-append xs (b ∷ [])),
          ap (last (room r)) (append_assoc xs (b ∷ []) bytes)
              ∙ ap (λ (n : ℕ). drop n (x ∷ ys)) more,
        )

push-last :
    (bytes : List ℕ) (r : ByteRing)
    → length r.deque ≤ room r
    → (push r bytes).deque ≡ last (room r) (r.deque ++ bytes)
unfolding push push_byte
push-last [] r h =
    let none : 0 ≡ length r.deque - room r = omega (arith, h) in
    rw (append-nil r.deque) (ap (λ (n : ℕ). drop n r.deque) none)
push-last (b ∷ bytes) r h =
    let (fits, same) = push_byte-last r b bytes h in push-last bytes (push_byte r b) fits ∙ same

-- A queue that does not hold more than its capacity, or one byte if that is 0, takes any bytes and then holds the newest of its own and those, as many as that; `pop_into` writes the oldest of them to the front of `out`, leaves the rest of it, and keeps the bytes behind.
pub pop_into-push :
    (r : ByteRing) (bytes out : List ℕ)
    → length r.deque ≤ room r
    → let held = last (room r) (r.deque ++ bytes) in
      let n = min (length out) (length held) in
      let (q, written, count) = pop_into (push r bytes) out in
      (count ≡ n) × (written ≡ take n held ++ drop n out) × (take n held ++ q.deque ≡ held)
unfolding pop_into
pop_into-push r bytes out h = rw (push-last bytes r h) (refl, refl, take-append-drop _ _)
