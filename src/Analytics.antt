-- ===== src/Analytics.antt =====
-- web/src/app/analytics/page.tsx: the statistics of runs. `now` is `Date.now()`, `time_of` the
-- milliseconds of a date, `to_fixed` and the numbers as in the other modules. `now - ms < t` is
-- written `now < t + ms`. A test id that every object has as a property is not considered.
pub mod Totals
pub mod Ranking
pub mod Trend
pub mod Export
use meergate.Base.{
  ℕ, suc, ◌+◌, ◌-◌, ◌*◌, ◌/◌, String, decimal, Bool, true, false, not, ◌&&◌, Option, none, some,
  List, [], ◌∷◌, ◌++◌, map, filter, find, length, any, get_elem?, Dict, lookup, insert, or_else,
  str_eq, string_eq, if◌then◌else◌, ltb, leb, ◌==◌, sort, max,
}
use meergate.Data.{TestItem, RunItem}
use meergate.Double.{Double}
use meergate.Utils.{export_csv}

abbrev pub day_ms : ℕ
day_ms = 86400000

abbrev pub finished_statuses : List String
finished_statuses = "passed" ∷ "failed" ∷ "error" ∷ []

abbrev pub is_finished : RunItem → Bool
is_finished r = any (λ s. str_eq r.status s) finished_statuses

abbrev pub has_status : String → RunItem → Bool
has_status s r = str_eq r.status s

pub record TestCounts : Type 0 where
  pub total : ℕ
  pub passed : ℕ
  pub failed : ℕ
  pub error : ℕ

abbrev pub no_counts : TestCounts
no_counts = record { total = 0; passed = 0; failed = 0; error = 0 }

abbrev pub count_run : RunItem → TestCounts → TestCounts
count_run r c =
    let counted = record c { total = c.total + 1 } in
    if has_status "passed" r
    then record counted { passed = c.passed + 1 }
    else if has_status "failed" r
    then record counted { failed = c.failed + 1 }
    else record counted { error = c.error + 1 }

-- `r.test_id ?? 'unknown'`, where the id of the test is always there.
abbrev pub key_of : RunItem → String
key_of r = r.test_id

unfoldable pub count_by_test : List RunItem → Dict String TestCounts → Dict String TestCounts
count_by_test [] m = m
count_by_test (r ∷ rs) m =
    count_by_test rs (insert (key_of r) (count_run r (or_else (lookup (key_of r) m) no_counts)) m)

abbrev pub sum : List ℕ → ℕ
sum [] = 0
sum (n ∷ ns) = n + sum ns

-- The durations that are not 0.
abbrev pub durations_of : List RunItem → List ℕ
durations_of runs = filter (λ d. ltb 0 d) (map (λ r. or_else r.duration_ms 0) runs)

pub record Stats (F : Type 0) : Type 0 where
  pub total_runs : ℕ
  pub pass_rate : F
  pub avg_duration : F
  pub passed : ℕ
  pub failed : ℕ
  pub error : ℕ
  pub by_test : Dict String TestCounts

abbrev pub count_status : String → List RunItem → ℕ
count_status s finished = length (filter (has_status s) finished)

module _ (d : Double) where
  abbrev pub average : List ℕ → d.F
  average ns = if ltb 0 (length ns) then d.div (d.of_ℕ (sum ns)) (d.of_ℕ (length ns)) else d.of_ℕ 0

  abbrev pub rate : ℕ → ℕ → d.F
  rate passed total =
      if ltb 0 total then d.mul (d.div (d.of_ℕ passed) (d.of_ℕ total)) (d.of_ℕ 100) else d.of_ℕ 0

  unfoldable pub compute_stats : List RunItem → Stats d.F
  compute_stats runs =
      let finished = filter is_finished runs in
      record {
        total_runs = length runs;
        pass_rate = rate (count_status "passed" finished) (length finished);
        avg_duration = average (durations_of finished);
        passed = count_status "passed" finished;
        failed = count_status "failed" finished;
        error = count_status "error" finished;
        by_test = count_by_test finished [];
      }

pub record TrendDay : Type 0 where
  pub date : String
  pub passed : ℕ
  pub failed : ℕ
  pub error : ℕ

abbrev pub empty_day : String → TrendDay
empty_day date = record { date = date; passed = 0; failed = 0; error = 0 }

-- The days from the first to today, which is 0 days ago.
abbrev pub empty_days : (ℕ → String) → ℕ → List TrendDay
empty_days label ℕ.zero = []
empty_days label (suc days) = empty_day (label days) ∷ empty_days label days

abbrev pub count_day : RunItem → TrendDay → TrendDay
count_day r day =
    if has_status "passed" r
    then record day { passed = day.passed + 1 }
    else if has_status "failed" r
    then record day { failed = day.failed + 1 }
    else if has_status "error" r
    then record day { error = day.error + 1 }
    else day

-- `result[idx]` changed, if there is one.
abbrev pub update_at {ℓ} : {A : Type ℓ} → (A → A) → ℕ → List A → List A
update_at f i [] = []
update_at f ℕ.zero (x ∷ xs) = f x ∷ xs
update_at f (suc i) (x ∷ xs) = x ∷ update_at f i xs

module _ (now : ℕ) (time_of : String → ℕ) where
  -- The whole days since a run, if it is not in the future.
  abbrev pub diff_days : RunItem → ℕ
  diff_days r = (now - time_of r.created_at) / day_ms

  abbrev pub in_trend : ℕ → RunItem → Bool
  in_trend days r = leb (time_of r.created_at) now && ltb (diff_days r) days

  unfoldable pub count_days : ℕ → List RunItem → List TrendDay → List TrendDay
  count_days days [] result = result
  count_days days (r ∷ rs) result =
      count_days days rs (
        if in_trend days r then update_at (count_day r) (days - 1 - diff_days r) result else result)

  unfoldable pub build_daily_trend : (ℕ → String) → List RunItem → ℕ → List TrendDay
  build_daily_trend label runs days = count_days days runs (empty_days label days)

  unfoldable pub filtered_runs : ℕ → List RunItem → List RunItem
  filtered_runs period runs = filter (λ r. ltb now (time_of r.created_at + period * day_ms)) runs

  unfoldable pub prev_period_runs : ℕ → List RunItem → List RunItem
  prev_period_runs period runs =
      filter
        (λ r.
          ltb now (time_of r.created_at + period * 2 * day_ms)
          && leb (time_of r.created_at + period * day_ms) now)
        runs

abbrev pub csv_headers : List String
csv_headers =
    "ID" ∷ "Test ID" ∷ "Status" ∷ "Duration (ms)" ∷ "Trigger" ∷ "Environment" ∷ "Created At" ∷ []

abbrev pub duration_text : Option ℕ → String
duration_text none = ""
duration_text (some ms) = decimal ms

abbrev pub csv_row : RunItem → List String
csv_row r =
    r.id
    ∷ r.test_id
    ∷ r.status
    ∷ duration_text r.duration_ms
    ∷ r.trigger
    ∷ or_else r.environment ""
    ∷ r.created_at
    ∷ []

-- The text of the file that `handleExport` makes.
unfoldable pub handle_export : ℕ → (String → ℕ) → ℕ → List RunItem → String
handle_export now time_of period runs =
    export_csv csv_headers (map csv_row (filtered_runs now time_of period runs))
