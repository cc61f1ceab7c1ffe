-- ===== src/Audio/Ring/Tests.antt =====
-- A queue of three bytes.
use remote_au.Common.{ℕ, ◌≡◌, List, [], ◌∷◌, ◌++◌, length, take, drop, min, arith}
use remote_au.Audio.Ring.{ByteRing, push, pop_into}
use remote_au.Audio.Ring.Queue.{last, pop_into-push}

abbrev ring : ByteRing
ring = record { deque = 1 ∷ 2 ∷ []; capacity = 3 }

abbrev taken : List ℕ
taken = 3 ∷ 4 ∷ []

abbrev buffer : List ℕ
buffer = 0 ∷ 0 ∷ []

pop_into-push_example :
    let held = last 3 (ring.deque ++ taken) in
    let n = min (length buffer) (length held) in
    let (q, written, count) = pop_into (push ring taken) buffer in
    (count ≡ n) × (written ≡ take n held ++ drop n buffer) × (take n held ++ q.deque ≡ held)
pop_into-push_example = pop_into-push ring taken buffer (omega arith)
