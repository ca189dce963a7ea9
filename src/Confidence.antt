-- ===== src/Confidence.antt =====
-- web/src/lib/confidence.ts: the types of the confidence engine, its constants, and the counts
-- that the score and the release gate are both derived from.

pub mod Score
pub mod Blockers
pub mod Checks
use meergate.Base.{
  ℕ, String, Bool, true, false, ◌||◌, Option, none, some, List, [], ◌∷◌, ltb, leb, str_eq, length,
  filter, if◌then◌else◌, ◌+◌,
}
use meergate.Data.{TestItem, CoverageReport, CatalogEntry, ScheduleItem}
use meergate.Double.{Double}

pub data ConfidenceStatus : Type 0 where
  ready watch risky blocked unknown : ConfidenceStatus

pub data Severity : Type 0 where
  critical warning info : Severity

abbrev pub default_coverage_threshold : ℕ
default_coverage_threshold = 70

abbrev pub default_critical_tag : String
default_critical_tag = "critical"

pub record ConfidenceInput : Type 0 where
  pub tests : Option (List TestItem)
  pub coverage : Option CoverageReport
  pub catalog : Option (List CatalogEntry)
  pub schedules : Option (List ScheduleItem)
  pub open_critical_incidents : Option ℕ

-- The policy that a release decision is evaluated against.
pub record GatePolicy : Type 0 where
  pub coverage_threshold : ℕ
  pub failing_tests_allowed : ℕ
  pub unreachable_services_allowed : ℕ
  pub open_critical_incidents_allowed : ℕ
  pub scheduled_run_required : Bool
  pub critical_tests_required : Bool

abbrev pub default_gate_policy : GatePolicy
default_gate_policy = record {
  coverage_threshold = 70;
  failing_tests_allowed = 0;
  unreachable_services_allowed = 0;
  open_critical_incidents_allowed = 0;
  scheduled_run_required = true;
  critical_tests_required = false;
}

pub record ConfidenceOptions : Type 0 where
  pub coverage_threshold : Option ℕ
  pub critical_tag : Option String
  pub policy : Option GatePolicy

pub data SignalKey : Type 0 where
  coverage failing_tests service_health incidents schedules : SignalKey

pub data SignalStatus : Type 0 where
  pass warn fail unknown : SignalStatus

-- `FAILING_STATUSES.has`.
abbrev pub is_failing_status : String → Bool
is_failing_status s = str_eq s "failed" || str_eq s "error"

-- The test of the two `filter` calls over `lastRunStatus`. The empty text, which is falsy, is in
-- no set.
abbrev pub is_failing : TestItem → Bool
is_failing t = elim t.last_run_status [ none ↦ false | some s ↦ is_failing_status s ]

unfoldable pub status_from_score : Option ℕ → ConfidenceStatus
status_from_score none = unknown
status_from_score (some score) =
    if leb 85 score
    then ready
    else if leb 65 score
    then watch
    else if leb 40 score
    then risky
    else blocked

unfoldable pub failing_test_count : Option (List TestItem) → Option ℕ
failing_test_count none = none
failing_test_count (some tests) = some (length (filter is_failing tests))

pub record HealthCounts : Type 0 where
  pub healthy : ℕ
  pub unreachable : ℕ
  pub known : ℕ

abbrev has_health : String → CatalogEntry → Bool
has_health status e = elim e.health_status [ none ↦ false | some s ↦ str_eq s status ]

-- The loop of `serviceHealthCounts`, over its two counters.
count_health : ℕ → ℕ → List CatalogEntry → HealthCounts
count_health healthy unreachable [] = record {
  healthy = healthy;
  unreachable = unreachable;
  known = healthy + unreachable;
}
count_health healthy unreachable (e ∷ es) =
    count_health (if has_health "healthy" e then healthy + 1 else healthy)
      (if has_health "healthy" e
        then unreachable
        else if has_health "unreachable" e
        then unreachable + 1
        else unreachable)
      es

unfoldable pub service_health_counts : Option (List CatalogEntry) → Option HealthCounts
unfolding count_health
service_health_counts none = none
service_health_counts (some catalog) = some (count_health 0 0 catalog)

unfoldable pub active_schedule_count : Option (List ScheduleItem) → Option ℕ
active_schedule_count none = none
active_schedule_count (some items) = some (length (filter (λ s. s.enabled) items))

module _ (d : Double) where
  -- A ratio is none when the denominator is not positive.
  unfoldable pub ratio : ℕ → ℕ → Option d.F
  ratio numerator denominator =
      if ltb 0 denominator then some (d.div (d.of_ℕ numerator) (d.of_ℕ denominator)) else none

  unfoldable pub coverage_fraction : Option CoverageReport → Option d.F
  unfolding ratio
  coverage_fraction none = none
  coverage_fraction (some report) = ratio report.covered_operations report.total_operations

  -- `Math.round(covFrac * 100)`, of both the score and the gate.
  unfoldable pub coverage_percent : Option d.F → Option ℕ
  coverage_percent none = none
  coverage_percent (some frac) = some (d.round (d.mul frac (d.of_ℕ 100)))
