-- ===== src/Audio/Ring.antt =====
-- src/audio/ring.rs: the bounded byte queue.
pub mod Queue
pub mod Tests
use remote_au.Common.{ℕ, List, [], ◌∷◌, ◌++◌, length, take, drop, min, leb, if◌then◌else◌}

pub record ByteRing : Type 0 where
  pub deque : List ℕ
  pub capacity : ℕ

pub with_capacity : ℕ → ByteRing
with_capacity capacity = record { deque = []; capacity = capacity }

-- One round of `push`: `pop_front` on an empty queue does nothing.
pub push_byte : ByteRing → ℕ → ByteRing
push_byte r b = record r {
  deque = (if leb r.capacity (length r.deque) then drop 1 r.deque else r.deque) ++ (b ∷ []);
}

pub push : ByteRing → List ℕ → ByteRing
push r [] = r
push r (b ∷ bytes) = push (push_byte r b) bytes

-- The queue, `out`, and how many of its bytes were written.
pub pop_into : ByteRing → List ℕ → ByteRing × List ℕ × ℕ
pop_into r out =
    let n = min (length out) (length r.deque) in
    (record r { deque = drop n r.deque }, take n r.deque ++ drop n out, n)
