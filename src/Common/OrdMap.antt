-- ===== src/Common/OrdMap.antt =====
-- `BTreeMap<u64, V>` as the list of its entries in ascending key order.
use remote_au.Common.Tests.{ltb, leb, ◌==◌, if◌then◌else◌, Bool-cases}
use remote_au.Common.Lists.{length}
use Prim.Native.Nat.{ℕ, ◌+◌, ◌≤◌, ◌<◌}
use mathlib.Core.Path.{◌≡◌, subst}
use mathlib.Core.Logic.{inl, inr}
use mathlib.Core.Bool.{Bool, false, ◌||◌}
use mathlib.Core.Option.{Option, none, some}
use mathlib.Core.List.{List, [], ◌∷◌}
use native.Mathlib.Omega.{arith}

abbrev pub OrdMap {ℓ} : Type ℓ → Type ℓ
OrdMap V = List (ℕ × V)

module _ {V : Type 0} where
  abbrev pub get : ℕ → OrdMap V → Option V
  get k [] = none
  get k ((j, v) ∷ m) = if j == k then some v else get k m

  abbrev pub contains_key : ℕ → OrdMap V → Bool
  contains_key k [] = false
  contains_key k ((j, v) ∷ m) = j == k || contains_key k m

  abbrev pub insert : ℕ → V → OrdMap V → OrdMap V
  insert k v [] = (k, v) ∷ []
  insert k v ((j, w) ∷ m) =
      if ltb k j
      then (k, v) ∷ ((j, w) ∷ m)
      else if j == k
      then (k, v) ∷ m
      else (j, w) ∷ insert k v m

  abbrev pub remove : ℕ → OrdMap V → OrdMap V
  remove k [] = []
  remove k ((j, v) ∷ m) = if j == k then m else (j, v) ∷ remove k m

  -- `keys().next()` and `keys().next_back()`.
  abbrev pub first_key : OrdMap V → Option ℕ
  first_key [] = none
  first_key ((k, v) ∷ m) = some k

  abbrev pub last_key_or : ℕ → OrdMap V → ℕ
  last_key_or d [] = d
  last_key_or d ((k, v) ∷ m) = last_key_or k m

  abbrev pub last_key : OrdMap V → Option ℕ
  last_key [] = none
  last_key ((k, v) ∷ m) = some (last_key_or k m)

  -- `retain(|&k, _| k >= low)`.
  abbrev pub retain_from : ℕ → OrdMap V → OrdMap V
  retain_from low [] = []
  retain_from low ((k, v) ∷ m) = if leb low k then (k, v) ∷ retain_from low m else retain_from low m

  -- `range(low..).next().is_some()`.
  abbrev pub has_from : ℕ → OrdMap V → Bool
  has_from low [] = false
  has_from low ((k, v) ∷ m) = leb low k || has_from low m

  -- The keys ascend, all above `low`.
  abbrev pub Ascends : ℕ → OrdMap V → Type 0
  Ascends low [] = Unit {0}
  Ascends low ((k, v) ∷ m) = (low < k) × Ascends k m

  pub Ascends-weaken : (a b : ℕ) (m : OrdMap V) → a ≤ b → Ascends b m → Ascends a m
  Ascends-weaken a b [] h s = tt
  Ascends-weaken a b ((k, v) ∷ m) h s = (omega arith, s.1)

  pub insert-Ascends :
      (low k : ℕ) (v : V) (m : OrdMap V) → low < k → Ascends low m → Ascends low (insert k v m)
  insert-Ascends low k v [] h s = (h, tt)
  insert-Ascends low k v ((j, w) ∷ m) h s = elim (Bool-cases (ltb k j)) [
    | inl below ↦ rw below (h, (ground arith, s.1))
    | inr above ↦ rw above (elim (Bool-cases (j == k)) [
      | inl same ↦ rw same (h, Ascends-weaken k j m (ground arith) s.1)
      | inr other ↦ rw other (s.0, insert-Ascends j k v m (ground arith) s.1)
    ])
  ]

  pub remove-Ascends : (low k : ℕ) (m : OrdMap V) → Ascends low m → Ascends low (remove k m)
  remove-Ascends low k [] s = tt
  remove-Ascends low k ((j, w) ∷ m) s = elim (Bool-cases (j == k)) [
    | inl same ↦ rw same (Ascends-weaken low j m (ground arith) s.1)
    | inr other ↦ rw other (s.0, remove-Ascends j k m s.1)
  ]

  pub retain_from-Ascends :
      (low k : ℕ) (m : OrdMap V) → Ascends low m → Ascends low (retain_from k m)
  retain_from-Ascends low k [] s = tt
  retain_from-Ascends low k ((j, w) ∷ m) s = elim (Bool-cases (leb k j)) [
    | inl keep ↦ rw keep (s.0, retain_from-Ascends j k m s.1)
    | inr gone ↦ rw gone (retain_from-Ascends low k m (Ascends-weaken low j m (ground arith) s.1))
  ]

  pub length-insert-le : (k : ℕ) (v : V) (m : OrdMap V) → length (insert k v m) ≤ length m + 1
  length-insert-le k v [] = omega arith
  length-insert-le k v ((j, w) ∷ m) = ground (arith, length-insert-le k v m)

  pub length-remove-le : (k : ℕ) (m : OrdMap V) → length (remove k m) ≤ length m
  length-remove-le k [] = omega arith
  length-remove-le k ((j, w) ∷ m) = ground (arith, length-remove-le k m)

  pub length-retain_from-le : (k : ℕ) (m : OrdMap V) → length (retain_from k m) ≤ length m
  length-retain_from-le k [] = omega arith
  length-retain_from-le k ((j, w) ∷ m) = ground (arith, length-retain_from-le k m)

  abbrev pub Values {ℓ} : (V → Type ℓ) → OrdMap V → Type ℓ
  Values P [] = Unit {ℓ}
  Values P ((k, v) ∷ m) = P v × Values P m

  module _ (P : V → Type 0) where
    pub insert-Values : (k : ℕ) (v : V) (m : OrdMap V) → P v → Values P m → Values P (insert k v m)
    insert-Values k v [] h s = (h, tt)
    insert-Values k v ((j, w) ∷ m) h s = elim (Bool-cases (ltb k j)) [
      | inl below ↦ rw below (h, s)
      | inr above ↦ rw above (elim (Bool-cases (j == k)) [
        | inl same ↦ rw same (h, s.1)
        | inr other ↦ rw other (s.0, insert-Values k v m h s.1)
      ])
    ]

    pub remove-Values : (k : ℕ) (m : OrdMap V) → Values P m → Values P (remove k m)
    remove-Values k [] s = tt
    remove-Values k ((j, w) ∷ m) s = elim (Bool-cases (j == k)) [
      | inl same ↦ rw same s.1
      | inr other ↦ rw other (s.0, remove-Values k m s.1)
    ]

    pub retain_from-Values : (k : ℕ) (m : OrdMap V) → Values P m → Values P (retain_from k m)
    retain_from-Values k [] s = tt
    retain_from-Values k ((j, w) ∷ m) s = elim (Bool-cases (leb k j)) [
      | inl keep ↦ rw keep (s.0, retain_from-Values k m s.1)
      | inr gone ↦ rw gone (retain_from-Values k m s.1)
    ]

    pub get-Values : (k : ℕ) (v : V) (m : OrdMap V) → get k m ≡ some v → Values P m → P v
    get-Values k v [] e s = cc
    get-Values k v ((j, w) ∷ m) e s = elim (Bool-cases (j == k)) [
      | inl same ↦ let found : w ≡ v = ground arith in subst P found s.0
      | inr other ↦ get-Values k v m (let rest : get k m ≡ some v = ground arith in rest) s.1
    ]

  -- No key lies above `top`.
  abbrev pub Below : ℕ → OrdMap V → Type 0
  Below top [] = Unit {0}
  Below top ((k, v) ∷ m) = (k ≤ top) × Below top m

  pub Below-weaken : (a b : ℕ) (m : OrdMap V) → a ≤ b → Below a m → Below b m
  Below-weaken a b [] h s = tt
  Below-weaken a b ((k, v) ∷ m) h s = (omega arith, Below-weaken a b m h s.1)

  pub insert-Below :
      (top k : ℕ) (v : V) (m : OrdMap V) → k ≤ top → Below top m → Below top (insert k v m)
  insert-Below top k v [] h s = (h, tt)
  insert-Below top k v ((j, w) ∷ m) h s = elim (Bool-cases (ltb k j)) [
    | inl below ↦ rw below (h, s)
    | inr above ↦ rw above (elim (Bool-cases (j == k)) [
      | inl same ↦ rw same (h, s.1)
      | inr other ↦ rw other (s.0, insert-Below top k v m h s.1)
    ])
  ]

  pub remove-Below : (top k : ℕ) (m : OrdMap V) → Below top m → Below top (remove k m)
  remove-Below top k [] s = tt
  remove-Below top k ((j, w) ∷ m) s = elim (Bool-cases (j == k)) [
    | inl same ↦ rw same s.1
    | inr other ↦ rw other (s.0, remove-Below top k m s.1)
  ]

  pub retain_from-Below : (top k : ℕ) (m : OrdMap V) → Below top m → Below top (retain_from k m)
  retain_from-Below top k [] s = tt
  retain_from-Below top k ((j, w) ∷ m) s = elim (Bool-cases (leb k j)) [
    | inl keep ↦ rw keep (s.0, retain_from-Below top k m s.1)
    | inr gone ↦ rw gone (retain_from-Below top k m s.1)
  ]

  last_key_or-Below :
      (low : ℕ) (m : OrdMap V)
      → Ascends low m
      → (low ≤ last_key_or low m) × Below (last_key_or low m) m
  last_key_or-Below low [] s = (omega arith, tt)
  last_key_or-Below low ((k, v) ∷ m) s =
      let rest = last_key_or-Below k m s.1 in (omega (arith, rest.0), (rest.0, rest.1))

  -- The last key is the greatest.
  pub last_key-Below :
      (low last : ℕ) (m : OrdMap V) → Ascends low m → last_key m ≡ some last → Below last m
  last_key-Below low last [] s e = tt
  last_key-Below low last ((k, v) ∷ m) s e =
      let found : last_key_or k m ≡ last = ground arith in
      subst (λ (t : ℕ). Below t ((k, v) ∷ m)) found
        ((last_key_or-Below k m s.1).0, (last_key_or-Below k m s.1).1)

  pub last_key-le :
      (top last : ℕ) (m : OrdMap V) → Below top m → last_key m ≡ some last → last ≤ top
  last_key-le top last [] s e = cc
  last_key-le top last ((k, v) ∷ []) s e = ground arith
  last_key-le top last ((k, v) ∷ ((j, w) ∷ m)) s e = last_key-le top last ((j, w) ∷ m) s.1 e

  pub length-remove_first :
      (k : ℕ) (m : OrdMap V) → first_key m ≡ some k → length (remove k m) + 1 ≡ length m
  length-remove_first k [] e = cc
  length-remove_first k ((j, w) ∷ m) e = ground arith
