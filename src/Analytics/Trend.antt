-- ===== src/Analytics/Trend.antt =====
-- web/src/app/analytics/page.tsx: the daily trend has the runs that the statistics count.
use meergate.Base.{
  ℕ, zero, suc, ◌≡◌, ◌+◌, ◌-◌, ◌*◌, ◌≤◌, ◌<◌, refl, ap, ◌∙◌, arith, inl, inr, String, true, List,
  [], ◌∷◌, filter, length, All, eq_iff, Bool-cases, ltb,
}
use meergate.Data.{RunItem}
use meergate.Double.{Double}
use meergate.Analytics.{
  TrendDay, empty_days, count_day, update_at, day_ms, diff_days, in_trend, count_days,
  build_daily_trend, filtered_runs, is_finished, compute_stats,
}
use meergate.Analytics.Totals.{one_status, one_status-is_finished, count_status-finished}

abbrev pub day_total : TrendDay → ℕ
day_total day = day.passed + day.failed + day.error

abbrev pub trend_total : List TrendDay → ℕ
trend_total [] = 0
trend_total (day ∷ days) = day_total day + trend_total days

count_day-total :
    (r : RunItem) (day : TrendDay) → day_total (count_day r day) ≡ day_total day + one_status r
count_day-total r day = ground (
  arith,
  eq_iff r.status "passed",
  eq_iff r.status "failed",
  eq_iff r.status "error",
  eq_iff "passed" "failed",
  eq_iff "passed" "error",
  eq_iff "failed" "error",
)

update_at-total :
    (r : RunItem) (i : ℕ) (days : List TrendDay)
    → i < length days
    → (trend_total (update_at (count_day r) i days) ≡ trend_total days + one_status r)
      × (length (update_at (count_day r) i days) ≡ length days)
update_at-total r i [] h = omega arith
update_at-total r zero (day ∷ days) h = (omega (arith, count_day-total r day), refl)
update_at-total r (suc i) (day ∷ days) h =
    let later = update_at-total r i days (omega arith) in
    (omega (arith, later.0), omega (arith, later.1))

empty_days-total : (label : ℕ → String) (n : ℕ) → trend_total (empty_days label n) ≡ 0
empty_days-total label zero = refl
empty_days-total label (suc n) = omega (arith, empty_days-total label n)

length-empty_days : (label : ℕ → String) (n : ℕ) → length (empty_days label n) ≡ n
length-empty_days label zero = refl
length-empty_days label (suc n) = omega (arith, length-empty_days label n)

module _ (now : ℕ) (time_of : String → ℕ) (days : ℕ) where
  in_trend-index :
      (r : RunItem) → in_trend now time_of days r ≡ true → days - 1 - diff_days now time_of r < days
  in_trend-index r h = ground arith

  -- The runs of the trend that are finished.
  abbrev counted_runs : List RunItem → List RunItem
  counted_runs runs = filter is_finished (filter (in_trend now time_of days) runs)

  length-counted_runs :
      (r : RunItem) (rs : List RunItem)
      → in_trend now time_of days r ≡ true
      → length (counted_runs (r ∷ rs)) ≡ one_status r + length (counted_runs rs)
  length-counted_runs r rs h = elim (Bool-cases (is_finished r)) [
    | inl k ↦ rw h (rw (k, rw k at (one_status-is_finished r)) (omega arith))
    | inr k ↦ rw h (rw (k, rw k at (one_status-is_finished r)) (omega arith))
  ]

  count_days-total :
      (runs : List RunItem) (result : List TrendDay)
      → length result ≡ days
      → trend_total (count_days now time_of days runs result)
        ≡ trend_total result + length (counted_runs runs)
  unfolding count_days
  count_days-total [] result h = omega arith
  count_days-total (r ∷ rs) result h = elim (Bool-cases (in_trend now time_of days r)) [
    | inr k ↦ rw k (count_days-total rs result h)
    | inl k ↦
        let i = days - 1 - diff_days now time_of r in
        let changed = update_at-total r i result (rw h (in_trend-index r k)) in
        let later = count_days-total rs (update_at (count_day r) i result) (changed.1 ∙ h) in
        rw (length-counted_runs r rs k) (rw k (omega (arith, later, changed.0)))
  ]

  in_trend-window :
      (r : RunItem)
      → time_of r.created_at ≤ now
      → in_trend now time_of days r ≡ ltb now (time_of r.created_at + days * day_ms)
  in_trend-window r h = ground arith

  filter-window :
      (runs : List RunItem)
      → All (λ r. time_of r.created_at ≤ now) runs
      → filter (in_trend now time_of days) runs ≡ filtered_runs now time_of days runs
  unfolding filtered_runs
  filter-window [] h = refl
  filter-window (r ∷ rs) h = elim (Bool-cases (ltb now (time_of r.created_at + days * day_ms))) [
    | inl k ↦ rw (in_trend-window r h.0, k) (ap (λ l. r ∷ l) (filter-window rs h.1))
    | inr k ↦ rw (in_trend-window r h.0, k) (filter-window rs h.1)
  ]

-- Where no run is in the future, the days of the trend together count the runs that the statistics
-- of the period count.
pub build_daily_trend-stats :
    (d : Double) (now : ℕ) (time_of : String → ℕ) (label : ℕ → String) (runs : List RunItem)
    (days : ℕ)
    → All (λ r. time_of r.created_at ≤ now) runs
    → trend_total (build_daily_trend now time_of label runs days)
      ≡ (compute_stats d (filtered_runs now time_of days runs)).passed
        + (compute_stats d (filtered_runs now time_of days runs)).failed
        + (compute_stats d (filtered_runs now time_of days runs)).error
unfolding build_daily_trend compute_stats
build_daily_trend-stats d now time_of label runs days h =
    let total =
      count_days-total now time_of days runs (empty_days label days)
        (length-empty_days label days) in
    let same = ap (λ l. length (filter is_finished l)) (filter-window now time_of days runs h) in
    omega (
      arith,
      total,
      same,
      empty_days-total label days,
      count_status-finished (filtered_runs now time_of days runs),
    )
