-- ===== src/Confidence/Score.antt =====
-- web/src/lib/confidence.ts: `computeConfidence`. The five signals and their fractions, the
-- renormalised weights, and the score. Numbers are those of the `Double` interface.
pub mod Range
pub mod Order
use meergate.Base.{
  ℕ, String, ◌-◌, ◌*◌, min, Bool, ◌&&◌, Option, none, some, List, [], ◌∷◌, ltb, leb, ◌==◌, length,
  if◌then◌else◌, is_some,
}
use meergate.Data.{TestItem}
use meergate.Double.{Double}
use meergate.Confidence.{
  ConfidenceInput, SignalKey, SignalStatus, pass, warn, fail, coverage, failing_tests,
  service_health, incidents, schedules, HealthCounts, ratio, coverage_fraction, coverage_percent,
  failing_test_count, service_health_counts, active_schedule_count,
}

-- `Math.max(0, Math.min(100, Math.round(v)))`: the rounded number is no less than 0.
unfoldable pub clamp_score : (d : Double) → d.F → ℕ
clamp_score d v = min 100 (d.round v)

abbrev pub count_tests : Option (List TestItem) → ℕ
count_tests none = 0
count_tests (some tests) = length tests

module _ (d : Double) where
  pub record MetricSignal : Type 0 where
    pub key : SignalKey
    pub available : Bool
    pub value : Option ℕ
    pub weight_applied : d.F
    pub status : SignalStatus
    pub label_key : String

  -- `WEIGHTS`.
  abbrev pub weight : SignalKey → d.F
  weight coverage = d.percent 30
  weight failing_tests = d.percent 30
  weight service_health = d.percent 20
  weight incidents = d.percent 15
  weight schedules = d.percent 5

  pub failing_fraction : Option (List TestItem) → Option d.F
  unfolding ratio
  failing_fraction tests = elim (failing_test_count tests) [
    | none ↦ none
    | some failing ↦ ratio d (count_tests tests - failing) (count_tests tests)
  ]

  pub health_fraction : Option HealthCounts → Option d.F
  unfolding ratio
  health_fraction none = none
  health_fraction (some health) =
      if ltb 0 health.known then ratio d health.healthy health.known else none

  pub incident_fraction : Option ℕ → Option d.F
  incident_fraction none = none
  incident_fraction (some n) = some (if ltb 0 n then d.of_ℕ 0 else d.of_ℕ 1)

  pub schedule_fraction : Option ℕ → Option d.F
  schedule_fraction none = none
  schedule_fraction (some n) = some (if ltb 0 n then d.of_ℕ 1 else d.of_ℕ 0)

  -- The record `fractions`.
  unfoldable pub fraction : ConfidenceInput → SignalKey → Option d.F
  unfolding failing_fraction health_fraction incident_fraction schedule_fraction coverage_fraction
  fraction input coverage = coverage_fraction d input.coverage
  fraction input failing_tests = failing_fraction input.tests
  fraction input service_health = health_fraction (service_health_counts input.catalog)
  fraction input incidents = incident_fraction input.open_critical_incidents
  fraction input schedules = schedule_fraction (active_schedule_count input.schedules)

  -- The coverage threshold is a whole number, so `covPct >= threshold / 2` is a test on ℕ.
  coverage_status : ℕ → Option ℕ → SignalStatus
  coverage_status threshold none = SignalStatus.unknown
  coverage_status threshold (some pct) =
      if leb threshold pct then pass else if leb threshold (2 * pct) then warn else fail

  failing_status : ℕ → Option ℕ → SignalStatus
  failing_status total none = SignalStatus.unknown
  failing_status total (some failing) =
      if total == 0
      then SignalStatus.unknown
      else if failing == 0
      then pass
      else if leb failing 2
      then warn
      else fail

  health_status : Option HealthCounts → Option d.F → SignalStatus
  health_status (some health) (some frac) =
      if health.unreachable == 0 then pass else if d.lt frac (d.percent 50) then fail else warn
  health_status _ _ = SignalStatus.unknown

  incident_status : Option ℕ → SignalStatus
  incident_status none = SignalStatus.unknown
  incident_status (some n) = if n == 0 then pass else fail

  schedule_status : Option ℕ → SignalStatus
  schedule_status none = SignalStatus.unknown
  schedule_status (some n) = if ltb 0 n then pass else warn

  healthy_count : Option HealthCounts → Option ℕ
  healthy_count none = none
  healthy_count (some health) = some health.healthy

  -- The signals as they are pushed, before the weights are applied.
  unfoldable pub signals : ConfidenceInput → ℕ → List MetricSignal
  unfolding coverage_status failing_status health_status incident_status schedule_status
      healthy_count
  signals input threshold =
      record {
        key = coverage;
        available = is_some (fraction input coverage);
        value = coverage_percent d (fraction input coverage);
        weight_applied = d.of_ℕ 0;
        status = coverage_status threshold (coverage_percent d (fraction input coverage));
        label_key = "confidence.signalCoverage";
      }
      ∷ record {
        key = failing_tests;
        available = is_some (failing_test_count input.tests) && ltb 0 (count_tests input.tests);
        value = failing_test_count input.tests;
        weight_applied = d.of_ℕ 0;
        status = failing_status (count_tests input.tests) (failing_test_count input.tests);
        label_key = "confidence.signalFailing";
      }
      ∷ record {
        key = service_health;
        available = is_some (fraction input service_health);
        value = healthy_count (service_health_counts input.catalog);
        weight_applied = d.of_ℕ 0;
        status =
            health_status (service_health_counts input.catalog) (fraction input service_health);
        label_key = "confidence.signalHealth";
      }
      ∷ record {
        key = incidents;
        available = is_some input.open_critical_incidents;
        value = input.open_critical_incidents;
        weight_applied = d.of_ℕ 0;
        status = incident_status input.open_critical_incidents;
        label_key = "confidence.signalIncidents";
      }
      ∷ record {
        key = schedules;
        available = is_some (active_schedule_count input.schedules);
        value = active_schedule_count input.schedules;
        weight_applied = d.of_ℕ 0;
        status = schedule_status (active_schedule_count input.schedules);
        label_key = "confidence.signalSchedules";
      }
      ∷ []

  -- The `reduce` that sums the weights of the available signals.
  unfoldable pub available_weight : (SignalKey → Option d.F) → d.F → List MetricSignal → d.F
  available_weight fractions sum [] = sum
  available_weight fractions sum (s ∷ ss) =
      available_weight fractions
        (if is_some (fractions s.key) then d.add sum (weight s.key) else sum) ss

  abbrev add_signal : d.F → Option d.F → d.F → d.F
  add_signal acc none w = acc
  add_signal acc (some frac) w = d.add acc (d.mul frac w)

  -- The loop that adds up `frac * w`.
  unfoldable pub accumulate : (SignalKey → Option d.F) → d.F → d.F → List MetricSignal → d.F
  accumulate fractions total acc [] = acc
  accumulate fractions total acc (s ∷ ss) =
      accumulate fractions total (add_signal acc (fractions s.key) (d.div (weight s.key) total)) ss

  -- The same loop's writes to `weightApplied`.
  unfoldable pub apply_weights :
      (SignalKey → Option d.F) → d.F → List MetricSignal → List MetricSignal
  apply_weights fractions total [] = []
  apply_weights fractions total (s ∷ ss) =
      (if is_some (fractions s.key)
        then record s { weight_applied = d.div (weight s.key) total }
        else s)
      ∷ apply_weights fractions total ss

  unfoldable pub score_of : (SignalKey → Option d.F) → List MetricSignal → Option ℕ
  unfolding available_weight accumulate clamp_score
  score_of fractions ss =
      let total = available_weight fractions (d.of_ℕ 0) ss in
      if d.lt (d.of_ℕ 0) total
      then some (clamp_score d (d.mul (accumulate fractions total (d.of_ℕ 0) ss) (d.of_ℕ 100)))
      else none
