-- ===== src/Analytics/Ranking.antt =====
-- web/src/app/analytics/page.tsx: the tests with the most runs, the flaky ones and the slow ones.
use meergate.Base.{
  ℕ, ◌≡◌, ◌≤◌, ◌+◌, refl, arith, String, Bool, true, none, some, List, [], ◌∷◌, map, filter, find,
  length, All, All-sort, Dict, or_else, str_eq, string_eq, if◌then◌else◌, ltb, leb, sort, IsTotal,
  max,
}
use meergate.Base.Grouping.{group_from, group_from_lem}
use meergate.Base.Ranking.{take, drop, take-sort}
use meergate.Data.{TestItem, RunItem}
use meergate.Double.{Double}
use meergate.Analytics.{TestCounts, sum}

-- `tests.find((test) => test.id === id)?.name ?? id`.
abbrev pub test_name : List TestItem → String → String
test_name tests id = elim (find (λ test. str_eq test.id id) tests) [
  | none ↦ id
  | some test ↦ test.name
]

pub record TestBar : Type 0 where
  pub name : String
  pub passed : ℕ
  pub failed : ℕ
  pub pass_rate : ℕ

abbrev pub bar_le : TestBar → TestBar → Bool
bar_le a b = leb (b.passed + b.failed) (a.passed + a.failed)

abbrev pub flake_of : TestItem → ℕ
flake_of test = or_else test.flake_score 0

abbrev pub score_le : TestItem → TestItem → Bool
score_le a b = leb (flake_of b) (flake_of a)

-- The tests with a score above 0, the most flaky first.
unfoldable pub flaky_tests : List TestItem → List TestItem
flaky_tests tests = take 10 (sort score_le (filter (λ test. ltb 0 (flake_of test)) tests))

pub record SlowTest : Type 0 where
  pub id : String
  pub name : String
  pub avg : ℕ
  pub longest : ℕ
  pub runs : ℕ

abbrev pub slow_le : SlowTest → SlowTest → Bool
slow_le a b = leb b.avg a.avg

abbrev pub largest : List ℕ → ℕ
largest [] = 0
largest (n ∷ ns) = max n (largest ns)

abbrev pub has_duration : RunItem → Bool
has_duration r = ltb 0 (or_else r.duration_ms 0)

-- Each test with its runs that took time.
unfoldable pub test_durations : List RunItem → Dict String (List RunItem)
test_durations runs = group_from (λ r. r.test_id) (filter has_duration runs) []

module _ (d : Double) where
  abbrev bar_of : List TestItem → String × TestCounts → TestBar
  bar_of tests entry = record {
    name = test_name tests entry.0;
    passed = entry.1.passed;
    failed = entry.1.failed + entry.1.error;
    pass_rate =
        if ltb 0 entry.1.total
        then d.round (d.mul (d.div (d.of_ℕ entry.1.passed) (d.of_ℕ entry.1.total)) (d.of_ℕ 100))
        else 0;
  }

  unfoldable pub test_bar_data : List TestItem → Dict String TestCounts → List TestBar
  test_bar_data tests by_test = take 12 (sort bar_le (map (bar_of tests) by_test))

  abbrev pub slow_test_of : List TestItem → String × List RunItem → SlowTest
  slow_test_of tests entry =
      let durations = map (λ r. or_else r.duration_ms 0) entry.1 in
      record {
        id = entry.0;
        name = test_name tests entry.0;
        avg = d.round (d.div (d.of_ℕ (sum durations)) (d.of_ℕ (length durations)));
        longest = largest durations;
        runs = length durations;
      }

  unfoldable pub slow_tests : List TestItem → List RunItem → List SlowTest
  slow_tests tests runs = take 10 (sort slow_le (map (slow_test_of tests) (test_durations runs)))

score_le-IsTotal : IsTotal score_le
score_le-IsTotal = record { total = λ a b h. ground arith; trans = λ a b c h k. ground arith }

slow_le-IsTotal : IsTotal slow_le
slow_le-IsTotal = record { total = λ a b h. ground arith; trans = λ a b c h k. ground arith }

All-take : {A : Type 0} (P : A → Type 0) (n : ℕ) (xs : List A) → All P xs → All P (take n xs)
All-take P ℕ.zero xs h = tt
All-take P (ℕ.suc n) [] h = tt
All-take P (ℕ.suc n) (x ∷ xs) h = (h.0, All-take P n xs h.1)

length-map : {A B : Type 0} (f : A → B) (xs : List A) → length (map f xs) ≡ length xs
length-map f [] = refl
length-map f (x ∷ xs) = omega (arith, length-map f xs)

-- The runs of a test that took time.
abbrev pub timed_runs : List RunItem → String → List RunItem
timed_runs runs id = filter (λ r. str_eq r.test_id id) (filter has_duration runs)

All-slow_test_of :
    (d : Double) (tests : List TestItem) (runs : List RunItem) (m : Dict String (List RunItem))
    → All (λ g. g.1 ≡ timed_runs runs g.0) m
    → All (λ s. s.runs ≡ length (timed_runs runs s.id)) (map (slow_test_of d tests) m)
All-slow_test_of d tests runs [] h = tt
All-slow_test_of d tests runs (g ∷ m) h =
    (rw h.0 (length-map _ (timed_runs runs g.0)), All-slow_test_of d tests runs m h.1)

-- The flaky tests are at most ten, and no flaky test that is left out has a higher score.
pub flaky_tests_lem :
    (tests : List TestItem)
    → (length (flaky_tests tests) ≤ 10)
      × All
          (λ x.
            All
              (λ y. score_le x y ≡ true)
              (drop 10 (sort score_le (filter (λ test. ltb 0 (flake_of test)) tests))))
          (flaky_tests tests)
unfolding flaky_tests
flaky_tests_lem tests =
    take-sort score_le score_le-IsTotal 10 (filter (λ test. ltb 0 (flake_of test)) tests)

-- The slow tests are at most ten, none that is left out is slower on average, and each is shown
-- with the number of its runs that took time.
pub slow_tests_lem :
    (d : Double) (tests : List TestItem) (runs : List RunItem)
    → (length (slow_tests d tests runs) ≤ 10)
      × All
          (λ x.
            All
              (λ y. slow_le x y ≡ true)
              (drop 10 (sort slow_le (map (slow_test_of d tests) (test_durations runs)))))
          (slow_tests d tests runs)
      × All (λ s. s.runs ≡ length (timed_runs runs s.id)) (slow_tests d tests runs)
unfolding slow_tests test_durations
slow_tests_lem d tests runs =
    let entries = map (slow_test_of d tests) (test_durations runs) in
    let top = take-sort slow_le slow_le-IsTotal 10 entries in
    (
      top.0,
      top.1,
      All-take _ 10 _ (
          All-sort slow_le _ entries (
            All-slow_test_of d tests runs _
              (group_from_lem (λ r. r.test_id) (filter has_duration runs)).0)),
    )
