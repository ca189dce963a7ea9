-- ===== src/Sessions/Groups.antt =====
-- web/src/app/sessions/[id]/page.tsx: what the groups of runs show.
use mathlib.Core.List.{Perm}
use meergate.Base.{
  ◌≡◌, ◌≤◌, ◌+◌, refl, arith, String, Bool, List, [], ◌∷◌, map, filter, length, or_else, All,
  IsSorted, IsTotal, sort, sort-perm, sort-IsSorted, str_eq, string_eq, eq_iff, Dict,
}
use meergate.Base.Grouping.{group_from_lem}
use meergate.Sessions.{RunRow, TestGroup, groups, group_of, run_le, count_of, first_of}

-- The group shows all runs of its test, the newest first, and as latest the first of them; it does
-- not count more results than it has runs.
abbrev pub IsGroup : (String → String → Bool) → List RunRow → TestGroup → Type 0
IsGroup at_most runs g =
    Perm g.runs (filter (λ r. str_eq r.test_id g.test_id) runs)
    × IsSorted (run_le at_most) g.runs
    × (g.latest ≡ first_of g.runs)
    × (g.passed + g.failed + g.error ≤ length g.runs)

counts-le :
    (runs : List RunRow)
    → count_of "passed" runs + count_of "failed" runs + count_of "error" runs ≤ length runs
counts-le [] = omega arith
counts-le (r ∷ rs) = ground (
  arith,
  counts-le rs,
  eq_iff r.status "passed",
  eq_iff r.status "failed",
  eq_iff r.status "error",
  eq_iff "passed" "failed",
  eq_iff "passed" "error",
  eq_iff "failed" "error",
)

module _ (at_most : String → String → Bool) (t : IsTotal at_most) where
  run_le-IsTotal : IsTotal (run_le at_most)
  run_le-IsTotal = record {
    total = λ a b h. t.total (or_else b.started_at "") (or_else a.started_at "") h;
    trans = λ a b c h k. t.trans _ _ _ k h;
  }

  group_of-IsGroup :
      (runs : List RunRow) (g : String × List RunRow)
      → g.1 ≡ filter (λ r. str_eq r.test_id g.0) runs
      → IsGroup at_most runs (group_of at_most g)
  group_of-IsGroup runs g h =
      let own = filter (λ r. str_eq r.test_id g.0) runs in
      rw h (
        sort-perm (run_le at_most) own,
        sort-IsSorted (run_le at_most) run_le-IsTotal own,
        refl,
        counts-le (sort (run_le at_most) own),
      )

  All-map :
      (runs : List RunRow) (m : Dict String (List RunRow))
      → All (λ g. g.1 ≡ filter (λ r. str_eq r.test_id g.0) runs) m
      → All (IsGroup at_most runs) (map (group_of at_most) m)
  All-map runs [] h = tt
  All-map runs (g ∷ m) h = (group_of-IsGroup runs g h.0, All-map runs m h.1)

  pub groups-IsGroup : (runs : List RunRow) → All (IsGroup at_most runs) (groups at_most runs)
  unfolding groups
  groups-IsGroup runs = All-map runs _ (group_from_lem (λ r. r.test_id) runs).0
