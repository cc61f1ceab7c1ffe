-- ===== src/Discovery/Sources/Rounds.antt =====
-- The loop of `dedup_prefer_direct`.
use remote_au.Common.{
  ℕ, ◌≤◌, ◌≡◌, ◌⊎◌, refl, sym, inl, inr, true, false, List, [], ◌∷◌, ltb, bytes_eq, bytes_eq_refl,
  bytes_eq→eq, Bool-cases, All, arith, ltb→lt, ltb→le,
}
use remote_au.Discovery.Sources.{source_rank, Answer, note_item, note_all}
use remote_au.Discovery.Sources.Answers.{
  Among, Differ, Distinct, Covers, later, itself, covers_more,
}

-- What one round does to the best answers so far.
record Notes (x : Answer) (best out : List Answer) : Type 0 where
  from : (y : Answer) → Among y out → (y ≡ x) ⊎ Among y best
  new : Covers x out
  old : (y : Answer) → Among y best → Covers y out
  apart : (y : Answer) → Differ y x → All (Differ y) best → All (Differ y) out
  distinct : Distinct best → Distinct out

differs : (x y : Answer) → bytes_eq x.0.instance_id y.0.instance_id ≡ false → Differ x y
differs x y e p = let r = bytes_eq_refl x.0.instance_id in cc

below : {m n : ℕ} → ltb m n ≡ true → m ≤ n
below {m} {n} h = omega (arith, ltb→lt m n h)

note_item-Notes : (x : Answer) (best : List Answer) → Notes x best (note_item x best)
unfolding note_item
note_item-Notes x [] = record {
  from = λ y h. h;
  new = itself x (x ∷ []) (inl refl);
  old = λ y h. elim h [ ];
  apart = λ y d a. (d, tt);
  distinct = λ d. (tt, tt);
}
note_item-Notes x (b ∷ best) = elim (Bool-cases (bytes_eq b.0.instance_id x.0.instance_id)) [
  | inl e ↦
      let i : b.0.instance_id ≡ x.0.instance_id = bytes_eq→eq _ _ e in
      elim (Bool-cases (ltb (source_rank x.1) (source_rank b.1))) [
        | inl less ↦
            rw (e, less)
              (record {
                from = λ y h. elim h [ inl p ↦ inl p | inr m ↦ inr (inr m) ];
                new = itself x (x ∷ best) (inl refl);
                old = λ y h. elim h [
                  | inl p ↦
                      rw p
                        (record { answer = x; kept = inl refl; instance = i; direct = below less })
                  | inr m ↦ itself y (x ∷ best) (inr m)
                ];
                apart = λ y d a. (d, a.1);
                distinct = λ d. (rw (← i) d.0, d.1);
              })
        | inr more ↦
            rw (e, more)
              (record {
                from = λ y h. inr h;
                new = record {
                  answer = b;
                  kept = inl refl;
                  instance = sym i;
                  direct = ltb→le _ _ more;
                };
                old = λ y h. itself y (b ∷ best) h;
                apart = λ y d a. a;
                distinct = λ d. d;
              })
      ]
  | inr e ↦ rw e (
      let r = note_item-Notes x best in
      record {
        from = λ y h. elim h [
          | inl p ↦ inr (inl p)
          | inr m ↦ elim (r.from y m) [ inl p ↦ inl p | inr n ↦ inr (inr n) ]
        ];
        new = later x b _ r.new;
        old = λ y h. elim h [ inl p ↦ itself y _ (inl p) | inr m ↦ later y b _ (r.old y m) ];
        apart = λ y d a. (a.0, r.apart y d a.1);
        distinct = λ d. (r.apart b (differs b x e) d.0, r.distinct d.1);
      })
]

-- What the loop over the answers does.
pub record Noted (items best out : List Answer) : Type 0 where
  pub from : (y : Answer) → Among y out → Among y items ⊎ Among y best
  pub new : (y : Answer) → Among y items → Covers y out
  pub old : (y : Answer) → Among y best → Covers y out
  pub distinct : Distinct best → Distinct out

pub note_all-Noted : (items best : List Answer) → Noted items best (note_all best items)
unfolding note_all
note_all-Noted [] best = record {
  from = λ y h. inr h;
  new = λ y h. elim h [ ];
  old = λ y h. itself y best h;
  distinct = λ d. d;
}
note_all-Noted (x ∷ items) best =
    let n = note_item-Notes x best in
    let r = note_all-Noted items (note_item x best) in
    record {
      from = λ y h. elim (r.from y h) [
        | inl m ↦ inl (inr m)
        | inr m ↦ elim (n.from y m) [ inl p ↦ inl (inl p) | inr k ↦ inr k ]
      ];
      new = λ y h. elim h [ inl p ↦ covers_more r.old (rw p n.new) | inr m ↦ r.new y m ];
      old = λ y h. covers_more r.old (n.old y h);
      distinct = λ d. r.distinct (n.distinct d);
    }
