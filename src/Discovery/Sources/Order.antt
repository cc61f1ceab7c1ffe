-- ===== src/Discovery/Sources/Order.antt =====
-- The sort of `dedup_prefer_direct`.
use remote_au.Common.{
  ℕ, ◌≤◌, ◌≡◌, ◌⊎◌, refl, sym, inl, inr, false, List, [], ◌∷◌, leb, Bool-cases, All, arith, leb→le,
  leb→lt,
}
use remote_au.Discovery.Sources.{source_rank, Answer, insert_sorted, sort_by_rank}
use remote_au.Discovery.Sources.Answers.{Among, Differ, Distinct, rank, Sorted}

-- Insertion keeps the elements, their differences and the order.
record Inserted (x : Answer) (ys out : List Answer) : Type 0 where
  from : (y : Answer) → Among y out → (y ≡ x) ⊎ Among y ys
  here : Among x out
  there : (y : Answer) → Among y ys → Among y out
  apart : (y : Answer) → Differ y x → All (Differ y) ys → All (Differ y) out
  above : (n : ℕ) → n ≤ rank x → All (λ y. n ≤ rank y) ys → All (λ y. n ≤ rank y) out
  distinct : All (Differ x) ys → Distinct ys → Distinct out
  sorted : Sorted ys → Sorted out

above_trans :
    (m n : ℕ) → m ≤ n → (ys : List Answer) → All (λ y. n ≤ rank y) ys → All (λ y. m ≤ rank y) ys
above_trans m n h [] a = tt
above_trans m n h (y ∷ ys) a = (omega (arith, a.0), above_trans m n h ys a.1)

insert_sorted-Inserted : (x : Answer) (ys : List Answer) → Inserted x ys (insert_sorted x ys)
unfolding insert_sorted
insert_sorted-Inserted x [] = record {
  from = λ y h. h;
  here = inl refl;
  there = λ y h. elim h [ ];
  apart = λ y d a. (d, tt);
  above = λ n h a. (h, tt);
  distinct = λ a d. (tt, tt);
  sorted = λ s. (tt, tt);
}
insert_sorted-Inserted x (b ∷ ys) = elim (Bool-cases (leb (source_rank x.1) (source_rank b.1))) [
  | inl e ↦ rw e (record {
    from = λ y h. h;
    here = inl refl;
    there = λ y h. inr h;
    apart = λ y d a. (d, a);
    above = λ n h a. (h, a);
    distinct = λ a d. (a, d);
    sorted = λ s. ((leb→le _ _ e, above_trans (rank x) (rank b) (leb→le _ _ e) ys s.0), s);
  })
  | inr e ↦ rw e (
      let r = insert_sorted-Inserted x ys in
      record {
        from = λ y h. elim h [
          | inl p ↦ inr (inl p)
          | inr m ↦ elim (r.from y m) [ inl p ↦ inl p | inr k ↦ inr (inr k) ]
        ];
        here = inr r.here;
        there = λ y h. elim h [ inl p ↦ inl p | inr m ↦ inr (r.there y m) ];
        apart = λ y d a. (a.0, r.apart y d a.1);
        above = λ n h a. (a.0, r.above n h a.1);
        distinct = λ a d. (r.apart b (λ p. a.0 (sym p)) d.0, r.distinct a.1 d.1);
        sorted = λ s. (r.above (rank b) (before e) s.0, r.sorted s.1);
      })
]
  where
    before : leb (source_rank x.1) (source_rank b.1) ≡ false → rank b ≤ rank x
    before e = omega (arith, leb→lt _ _ e)

pub record Ordered (xs out : List Answer) : Type 0 where
  pub from : (y : Answer) → Among y out → Among y xs
  pub kept : (y : Answer) → Among y xs → Among y out
  pub apart : (y : Answer) → All (Differ y) xs → All (Differ y) out
  pub distinct : Distinct xs → Distinct out
  pub sorted : Sorted out

pub sort_by_rank-Ordered : (xs : List Answer) → Ordered xs (sort_by_rank xs)
unfolding sort_by_rank
sort_by_rank-Ordered [] = record {
  from = λ y h. h;
  kept = λ y h. h;
  apart = λ y a. a;
  distinct = λ d. d;
  sorted = tt;
}
sort_by_rank-Ordered (x ∷ xs) =
    let r = sort_by_rank-Ordered xs in
    let i = insert_sorted-Inserted x (sort_by_rank xs) in
    record {
      from = λ y h. elim (i.from y h) [ inl p ↦ inl p | inr m ↦ inr (r.from y m) ];
      kept = λ y h. elim h [ inl p ↦ rw p i.here | inr m ↦ i.there y (r.kept y m) ];
      apart = λ y a. i.apart y a.0 (r.apart y a.1);
      distinct = λ d. i.distinct (r.apart x d.0) (r.distinct d.1);
      sorted = i.sorted r.sorted;
    }
