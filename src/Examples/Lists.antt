-- ===== src/Examples/Lists.antt =====
-- web/src/lib/utils.ts, web/src/app/analytics/page.tsx and web/src/components/test-list.tsx on small
-- inputs.
use mathlib.Core.List.{Perm}
use meergate.Base.{
  ◌≡◌, ◌+◌, refl, arith, ℕ, String, true, false, none, some, List, [], ◌∷◌, filter, length, lookup,
  or_else, string_eq, str_eq, All, IsTotal, Bool, Option, if◌then◌else◌,
}
use meergate.Base.Grouping.{items_of}
use meergate.Double.Fixed.{fixed}
use meergate.Data.{RunItem, TestItem}
use meergate.Utils.{export_csv, csv_line, escape}
use meergate.Utils.Reader.{read_csv}
use meergate.Utils.Csv.{read_csv-export_csv}
use meergate.Analytics.{
  compute_stats, is_finished, no_counts, build_daily_trend, filtered_runs, count_days,
}
use meergate.Analytics.Totals.{compute_stats-counts, counts_of, runs_of}
use meergate.Analytics.Trend.{build_daily_trend-stats, trend_total}
use meergate.TestList.{test_groups, Watch, run_test, on_tick, has_text}
use meergate.TestList.Groups.{test_groups_lem, IsLast}
use meergate.TestList.Watching.{on_tick-drops}
use meergate.Examples.Gate.{login_test, trade_test}

exported :
    export_csv ("a" ∷ "b" ∷ []) (("1\"" ∷ "2,\n" ∷ []) ∷ []) ≡ "\"a\",\"b\"\n\"1\"\"\",\"2,\n\""
unfolding export_csv csv_line escape
exported = refl

read_csv-export_csv_example :
    read_csv (export_csv ("a" ∷ "b" ∷ []) (("1\"" ∷ "2,\n" ∷ []) ∷ []))
    ≡ ("a" ∷ "b" ∷ []) ∷ ("1\"" ∷ "2,\n" ∷ []) ∷ []
read_csv-export_csv_example =
    read_csv-export_csv ("a" ∷ "b" ∷ []) (("1\"" ∷ "2,\n" ∷ []) ∷ []) tt (tt, tt)

abbrev run : String → RunItem
run status = record {
  id = "r1";
  test_id = "login";
  status = status;
  trigger = "manual";
  environment = none;
  duration_ms = some 20;
  created_at = "today";
}

abbrev runs : List RunItem
runs = run "passed" ∷ run "failed" ∷ run "running" ∷ []

compute_stats-counts_example :
    ((compute_stats fixed runs).passed
        + (compute_stats fixed runs).failed
        + (compute_stats fixed runs).error
      ≡ length (filter is_finished runs))
    × (or_else (lookup "login" (compute_stats fixed runs).by_test) no_counts
        ≡ counts_of (runs_of "login" (filter is_finished runs)))
compute_stats-counts_example = compute_stats-counts fixed runs "login"

abbrev noon : String → ℕ
noon date = 172800000

abbrev day_name : ℕ → String
day_name n = "day"

two_in_trend : trend_total (build_daily_trend 172800001 noon day_name runs 7) ≡ 2
unfolding build_daily_trend count_days
two_in_trend = refl

build_daily_trend-stats_example :
    trend_total (build_daily_trend 172800001 noon day_name runs 7)
    ≡ (compute_stats fixed (filtered_runs 172800001 noon 7 runs)).passed
      + (compute_stats fixed (filtered_runs 172800001 noon 7 runs)).failed
      + (compute_stats fixed (filtered_runs 172800001 noon 7 runs)).error
build_daily_trend-stats_example =
    build_daily_trend-stats fixed 172800001 noon day_name runs 7
      (omega arith, (omega arith, (omega arith, tt)))

abbrev tests : List TestItem
tests = login_test ∷ trade_test ∷ []

abbrev any_order : String → String → Bool
any_order a b = true

any_order-IsTotal : IsTotal any_order
any_order-IsTotal = record { total = λ a b h. refl; trans = λ a b c h k. refl }

abbrev auth_only : String → Option String
auth_only id = if str_eq id "login" then some "auth" else none

abbrev same_text : String → String
same_text s = s

test_groups_lem_example :
    Perm (items_of (test_groups any_order auth_only "none" tests)) tests
    × All
        (λ g. g.1 ≡ filter (λ t. str_eq (or_else (auth_only t.id) "none") g.0) tests)
        (test_groups any_order auth_only "none" tests)
    × IsLast "none" (test_groups any_order auth_only "none" tests)
test_groups_lem_example = test_groups_lem any_order auth_only "none" tests

abbrev watch : Watch
watch = record { tests = tests; running = "login" ∷ [] }

on_tick-drops_example :
    (has_text (run_test "trade" watch).running "trade" ≡ true)
    × (has_text (on_tick watch.running tests (run_test "trade" watch)).running "trade" ≡ false)
on_tick-drops_example = on_tick-drops tests "trade" watch refl
