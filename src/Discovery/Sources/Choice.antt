-- ===== src/Discovery/Sources/Choice.antt =====
-- Which answers `dedup_prefer_direct` keeps.
use remote_au.Common.{inl, inr, List, []}
use remote_au.Discovery.Sources.{Answer, note_all, dedup_prefer_direct}
use remote_au.Discovery.Sources.Answers.{Among, Distinct, Sorted, Covers, itself, covers_more}
use remote_au.Discovery.Sources.Rounds.{note_all-Noted}
use remote_au.Discovery.Sources.Order.{sort_by_rank-Ordered}

-- What is asked of a choice between answers.
pub record Choice (items out : List Answer) : Type 0 where
  pub sorted : Sorted out
  pub distinct : Distinct out
  pub given : (y : Answer) → Among y out → Among y items
  pub covered : (y : Answer) → Among y items → Covers y out

-- Of any list of answers `dedup_prefer_direct` keeps some of them, in the order of their source's rank: exactly one for each instance, and no answer of the same instance has a more direct source.
pub dedup_prefer_direct-Choice : (items : List Answer) → Choice items (dedup_prefer_direct items)
unfolding dedup_prefer_direct
dedup_prefer_direct-Choice items =
    let n = note_all-Noted items [] in
    let s = sort_by_rank-Ordered (note_all [] items) in
    record {
      sorted = s.sorted;
      distinct = s.distinct (n.distinct tt);
      given = λ y h. elim (n.from y (s.from y h)) [ inl m ↦ m | inr m ↦ elim m [ ] ];
      covered = λ y h. covers_more (λ z k. itself z _ (s.kept z k)) (n.new y h);
    }
