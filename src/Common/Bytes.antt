-- ===== src/Common/Bytes.antt =====
-- Big-endian and little-endian words as byte lists, and slices of a byte list.
use native.Mathlib.Nat.{pow-suc}
use mathlib.Core.List.{append_assoc}
use remote_au.Common.Lists.{length, take, drop, length-append, take_append_of, drop_append_of}
use remote_au.Common.Tests.{leb, if◌then◌else◌}
use Prim.Native.Nat.{ℕ, zero, suc, ◌+◌, ◌-◌, ◌*◌, ◌/◌, ◌%◌, ◌^◌, ◌<◌}
use mathlib.Core.Path.{◌≡◌, refl, sym, ap, ◌∙◌}
use mathlib.Core.List.{List, [], ◌∷◌, ◌++◌}
use mathlib.Core.Bool.{◌&&◌}
use mathlib.Core.Option.{Option, none, some}
use native.Mathlib.Omega.{arith}

abbrev pub IsByte : ℕ → Type 0
IsByte b = b < 256

-- `n.to_be_bytes()` of a word of `k` bytes.
abbrev pub to_be : ℕ → ℕ → List ℕ
to_be zero n = []
to_be (suc k) n = to_be k (n / 256) ++ (n % 256 ∷ [])

abbrev pub from_be_acc : ℕ → List ℕ → ℕ
from_be_acc acc [] = acc
from_be_acc acc (b ∷ bs) = from_be_acc (acc * 256 + b) bs

-- `from_be_bytes`.
abbrev pub from_be : List ℕ → ℕ
from_be = from_be_acc 0

-- `xs.get(from..to)`.
unfoldable pub get_range {ℓ} : {A : Type ℓ} → List A → ℕ → ℕ → Option (List A)
get_range xs from to =
    if leb from to && leb to (length xs) then some (take (to - from) (drop from xs)) else none

pub length-to_be : (k n : ℕ) → length (to_be k n) ≡ k
length-to_be zero n = refl
length-to_be (suc k) n =
    omega (arith, length-append (to_be k (n / 256)) (n % 256 ∷ []), length-to_be k (n / 256))

from_be_acc-to_be :
    (k n acc : ℕ) (rest : List ℕ)
    → n < 256 ^ k
    → from_be_acc acc (to_be k n ++ rest) ≡ from_be_acc (acc * 256 ^ k + n) rest
from_be_acc-to_be zero n acc rest h = ap (λ a. from_be_acc a rest) (omega arith)
from_be_acc-to_be (suc k) n acc rest h =
    ap (from_be_acc acc) (append_assoc (to_be k (n / 256)) (n % 256 ∷ []) rest)
    ∙ from_be_acc-to_be k (n / 256) acc (n % 256 ∷ rest) (omega (arith, pow-suc 256 k))
    ∙ ap (λ a. from_be_acc a rest)
        (omega (arith, pow-suc 256 k, ap (λ (t : ℕ). acc * t) (pow-suc 256 k)))

-- A word that fits `k` bytes is read back from them.
pub from_be-to_be : (k n : ℕ) → n < 256 ^ k → from_be (to_be k n) ≡ n
from_be-to_be k n h =
    ap from_be (sym (append-nil (to_be k n))) ∙ from_be_acc-to_be k n 0 [] h ∙ omega arith
  where
    append-nil : (xs : List ℕ) → xs ++ [] ≡ xs
    append-nil = mathlib.Core.List.append-nil

-- What stands between two positions of a list that is put together from parts.
pub get_range_parts :
    (from to : ℕ) (pre mid post : List ℕ)
    → length pre ≡ from
    → length pre + length mid ≡ to
    → get_range (pre ++ (mid ++ post)) from to ≡ some mid
unfolding get_range
get_range_parts from to pre mid post hf ht = rw (drop_append_of from pre (mid ++ post) hf) (
    ground (
      arith,
      length-append pre (mid ++ post),
      length-append mid post,
      take_append_of (to - from) mid post,
    ))
