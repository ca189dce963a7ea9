-- ===== src/Analytics/Totals.antt =====
-- web/src/app/analytics/page.tsx: the counts of the statistics add up.
use meergate.Base.{
  ℕ, ◌≡◌, ◌+◌, refl, ap, ◌∙◌, arith, All, inl, inr, String, Bool, true, List, [], ◌∷◌, filter,
  length, Dict, lookup, insert, lookup-insert, or_else, str_eq, string_eq, eq_iff, if◌then◌else◌,
  Bool-cases,
}
use meergate.Data.{RunItem}
use meergate.Double.{Double}
use meergate.Analytics.{
  TestCounts, no_counts, count_run, key_of, count_by_test, compute_stats, is_finished, has_status,
  count_status,
}

-- The counts of a list of runs.
abbrev pub counts_of : List RunItem → TestCounts
counts_of runs = record {
  total = length runs;
  passed = count_status "passed" runs;
  failed = count_status "failed" runs;
  error = count_status "error" runs;
}

abbrev pub plus : TestCounts → TestCounts → TestCounts
plus a b = record {
  total = a.total + b.total;
  passed = a.passed + b.passed;
  failed = a.failed + b.failed;
  error = a.error + b.error;
}

abbrev pub runs_of : String → List RunItem → List RunItem
runs_of key runs = filter (λ r. str_eq (key_of r) key) runs

-- A finished run has just one of the three statuses.
abbrev pub one_status : RunItem → ℕ
one_status r =
    (if has_status "passed" r then 1 else 0)
    + (if has_status "failed" r then 1 else 0)
    + (if has_status "error" r then 1 else 0)

pub one_status-is_finished : (r : RunItem) → one_status r ≡ (if is_finished r then 1 else 0)
one_status-is_finished r = ground (
  arith,
  eq_iff r.status "passed",
  eq_iff r.status "failed",
  eq_iff r.status "error",
  eq_iff "passed" "failed",
  eq_iff "passed" "error",
  eq_iff "failed" "error",
)

pub count_status-finished :
    (runs : List RunItem)
    → count_status "passed" (filter is_finished runs)
        + count_status "failed" (filter is_finished runs)
        + count_status "error" (filter is_finished runs)
      ≡ length (filter is_finished runs)
count_status-finished [] = omega arith
count_status-finished (r ∷ rs) = elim (Bool-cases (is_finished r)) [
  | inr h ↦ rw h (count_status-finished rs)
  | inl h ↦ rw h (ground (arith, count_status-finished rs, rw h at (one_status-is_finished r)))
]

TestCounts-ext :
    (a b : TestCounts)
    → a.total ≡ b.total
    → a.passed ≡ b.passed
    → a.failed ≡ b.failed
    → a.error ≡ b.error
    → a ≡ b
TestCounts-ext a b p q r s = λ i. record { total = p i; passed = q i; failed = r i; error = s i }

-- A finished run adds its own counts.
count_run-plus :
    (r : RunItem) (c : TestCounts) (runs : List RunItem)
    → is_finished r ≡ true
    → plus (count_run r c) (counts_of runs) ≡ plus c (counts_of (r ∷ runs))
count_run-plus r c runs h =
    let one : one_status r ≡ 1 = rw h at (one_status-is_finished r) in
    TestCounts-ext _ _ (ground arith) (ground arith) (ground arith) (ground arith)

count_by_test-step :
    (key : String) (r : RunItem) (m : Dict String TestCounts)
    → or_else
        (lookup key (insert (key_of r) (count_run r (or_else (lookup (key_of r) m) no_counts)) m))
        no_counts
      ≡ (if str_eq (key_of r) key
          then count_run r (or_else (lookup key m) no_counts)
          else or_else (lookup key m) no_counts)
count_by_test-step key r m = elim (Bool-cases (str_eq (key_of r) key)) [
  | inl h ↦
      rw (lookup-insert (key_of r) key (count_run r (or_else (lookup (key_of r) m) no_counts)) m, h)
        (rw ((eq_iff (key_of r) key).0 h) refl)
  | inr h ↦
      rw (lookup-insert (key_of r) key (count_run r (or_else (lookup (key_of r) m) no_counts)) m, h)
        refl
]

lookup-count_by_test :
    (key : String) (runs : List RunItem) (m : Dict String TestCounts)
    → All (λ r. is_finished r ≡ true) runs
    → or_else (lookup key (count_by_test runs m)) no_counts
      ≡ plus (or_else (lookup key m) no_counts) (counts_of (runs_of key runs))
unfolding count_by_test
lookup-count_by_test key [] m h =
    TestCounts-ext _ _ (omega arith) (omega arith) (omega arith) (omega arith)
lookup-count_by_test key (r ∷ rs) m h =
    let next = insert (key_of r) (count_run r (or_else (lookup (key_of r) m) no_counts)) m in
    let later = lookup-count_by_test key rs next h.1 in
    let step = count_by_test-step key r m in
    elim (Bool-cases (str_eq (key_of r) key)) [
      | inl k ↦ rw k (
          later
          ∙ ap (λ c. plus c (counts_of (runs_of key rs))) (rw k at step)
          ∙ count_run-plus r (or_else (lookup key m) no_counts) (runs_of key rs) h.0)
      | inr k ↦ rw k (later ∙ ap (λ c. plus c (counts_of (runs_of key rs))) (rw k at step))
    ]

All-filter : {A : Type 0} (p : A → Bool) (xs : List A) → All (λ x. p x ≡ true) (filter p xs)
All-filter p [] = tt
All-filter p (x ∷ xs) = elim (Bool-cases (p x)) [
  | inl h ↦ rw h (h, All-filter p xs)
  | inr h ↦ rw h (All-filter p xs)
]

-- The finished runs are those that passed, failed or ended in an error, and each test is counted
-- its finished runs by their status.
pub compute_stats-counts :
    (d : Double) (runs : List RunItem) (key : String)
    → ((compute_stats d runs).passed + (compute_stats d runs).failed + (compute_stats d runs).error
        ≡ length (filter is_finished runs))
      × (or_else (lookup key (compute_stats d runs).by_test) no_counts
          ≡ counts_of (runs_of key (filter is_finished runs)))
unfolding compute_stats lookup
compute_stats-counts d runs key = (
  count_status-finished runs,
  lookup-count_by_test key (filter is_finished runs) [] (All-filter is_finished runs)
      ∙ TestCounts-ext _ _ (omega arith) (omega arith) (omega arith) (omega arith),
)
