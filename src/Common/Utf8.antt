-- ===== src/Common/Utf8.antt =====
-- Rust's `str`: a text is the list of its code points, its bytes are their UTF-8 form, and
-- `std::str::from_utf8` refuses what is no UTF-8.
use remote_au.Common.Tests.{ltb, leb, ◌==◌, if◌then◌else◌, ◌>>=◌}
use remote_au.Common.Lists.{All}
use Prim.Native.Nat.{ℕ, ◌+◌, ◌-◌, ◌*◌, ◌/◌, ◌%◌}
use mathlib.Core.Path.{◌≡◌, refl, ◌∙◌}
use mathlib.Core.Bool.{Bool, true, ◌&&◌, ◌||◌}
use mathlib.Core.Option.{Option, none, some}
use mathlib.Core.List.{List, [], ◌∷◌, ◌++◌}
use native.Mathlib.Omega.{arith}

-- A Unicode scalar value, which is what a `char` holds.
abbrev pub is_scalar : ℕ → Bool
is_scalar c = ltb c 0xd800 || (leb 0xe000 c && ltb c 0x110000)

abbrev pub IsText : List ℕ → Type 0
IsText = All (λ c. is_scalar c ≡ true)

pub encode_utf8 : ℕ → List ℕ
encode_utf8 c =
    if ltb c 0x80
    then c ∷ []
    else if ltb c 0x800
    then (0xc0 + c / 64) ∷ (0x80 + c % 64) ∷ []
    else if ltb c 0x10000
    then (0xe0 + c / 4096) ∷ (0x80 + c / 64 % 64) ∷ (0x80 + c % 64) ∷ []
    else (0xf0 + c / 262144) ∷ (0x80 + c / 4096 % 64) ∷ (0x80 + c / 64 % 64) ∷ (0x80 + c % 64) ∷ []

-- `name.as_bytes()`.
abbrev pub as_bytes : List ℕ → List ℕ
as_bytes [] = []
as_bytes (c ∷ cs) = encode_utf8 c ++ as_bytes cs

-- Between bytes: how many continuation bytes are due, the bits so far, the least value allowed.
record Pending : Type 0 where
  due : ℕ
  bits : ℕ
  least : ℕ

abbrev ready : Pending
ready = record { due = 0; bits = 0; least = 0 }

-- One byte: the state after it, with the character that it ends.
utf8_step : Pending → ℕ → Option (Pending × List ℕ)
utf8_step p b =
    if p.due == 0
    then (if ltb b 0x80
        then some (ready, b ∷ [])
        else if ltb b 0xc2
        then none
        else if ltb b 0xe0
        then some (record { due = 1; bits = b - 0xc0; least = 0x80 }, [])
        else if ltb b 0xf0
        then some (record { due = 2; bits = b - 0xe0; least = 0x800 }, [])
        else if ltb b 0xf5
        then some (record { due = 3; bits = b - 0xf0; least = 0x10000 }, [])
        else none)
    else if leb 0x80 b && ltb b 0xc0
    then (let bits = p.bits * 64 + (b - 0x80) in
        if p.due == 1
        then (if leb p.least bits && is_scalar bits then some (ready, bits ∷ []) else none)
        else some (record { due = p.due - 1; bits = bits; least = p.least }, []))
    else none

utf8_loop : Pending → List ℕ → Option (List ℕ)
utf8_loop p [] = if p.due == 0 then some [] else none
utf8_loop p (b ∷ bs) = elim (utf8_step p b) [
  | none ↦ none
  | some (q, out) ↦ utf8_loop q bs >>= λ cs. some (out ++ cs)
]

-- `std::str::from_utf8(bytes)`.
unfoldable pub from_utf8 : List ℕ → Option (List ℕ)
unfolding utf8_loop utf8_step
from_utf8 = utf8_loop ready

utf8_loop-encode_utf8 :
    (c : ℕ) (rest : List ℕ)
    → is_scalar c ≡ true
    → utf8_loop ready (encode_utf8 c ++ rest) ≡ (utf8_loop ready rest >>= λ cs. some (c ∷ cs))
unfolding utf8_loop utf8_step encode_utf8
utf8_loop-encode_utf8 c rest h = ground arith

utf8_loop-as_bytes : (s : List ℕ) → IsText s → utf8_loop ready (as_bytes s) ≡ some s
utf8_loop-as_bytes [] h = unfold utf8_loop in refl
utf8_loop-as_bytes (c ∷ cs) (hc, hs) =
    utf8_loop-encode_utf8 c (as_bytes cs) hc ∙ rw (utf8_loop-as_bytes cs hs)

-- The bytes of a text decode to that text.
pub from_utf8-as_bytes : (s : List ℕ) → IsText s → from_utf8 (as_bytes s) ≡ some s
unfolding from_utf8
from_utf8-as_bytes s h = utf8_loop-as_bytes s h
