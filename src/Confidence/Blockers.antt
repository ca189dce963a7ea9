-- ===== src/Confidence/Blockers.antt =====
-- web/src/lib/confidence.ts: `buildBlockers`, and the whole of `computeConfidence`.
pub mod Reasons
use meergate.Base.{
  ℕ, String, Bool, Option, none, some, List, [], ◌∷◌, ◌++◌, ltb, leb, ◌==◌, if◌then◌else◌, or_else,
  sort,
}
use meergate.Double.{Double}
use meergate.Confidence.{
  ConfidenceInput, ConfidenceOptions, ConfidenceStatus, Severity, critical, warning, info,
  HealthCounts, coverage_percent, failing_test_count, service_health_counts, active_schedule_count,
  status_from_score, default_coverage_threshold, coverage_fraction,
}
use meergate.Confidence.Score.{
  MetricSignal, fraction, signals, available_weight, apply_weights, score_of,
}

-- The optional numbers `count`, `value` and `threshold`.
pub record Detail : Type 0 where
  pub count : Option ℕ
  pub value : Option ℕ
  pub threshold : Option ℕ

pub record Blocker : Type 0 where
  pub code : String
  pub severity : Severity
  pub label_key : String
  pub detail : Detail
  pub action_route : String
  pub action_key : String

abbrev counted : ℕ → Detail
counted n = record { count = some n; value = none; threshold = none }

incident_blocker : Option ℕ → List Blocker
incident_blocker none = []
incident_blocker (some n) =
    if ltb 0 n
    then record {
      code = "CRITICAL_INCIDENTS";
      severity = critical;
      label_key = "confidence.blockerIncidents";
      detail = counted n;
      action_route = "/alerts";
      action_key = "confidence.actionReviewIncidents";
    }
      ∷ []
    else []

failing_blocker : Option ℕ → List Blocker
failing_blocker none = []
failing_blocker (some n) =
    if ltb 0 n
    then record {
      code = "FAILING_TESTS";
      severity = critical;
      label_key = "confidence.blockerFailing";
      detail = counted n;
      action_route = "/tests?tab=runs&status=failed";
      action_key = "confidence.actionOpenFailures";
    }
      ∷ []
    else []

unreachable_blocker : Option HealthCounts → List Blocker
unreachable_blocker none = []
unreachable_blocker (some health) =
    if ltb 0 health.unreachable
    then record {
      code = "UNREACHABLE_SERVICES";
      severity = warning;
      label_key = "confidence.blockerUnhealthy";
      detail = counted health.unreachable;
      action_route = "/targets";
      action_key = "confidence.actionCheckServices";
    }
      ∷ []
    else []

coverage_blocker : ℕ → Option ℕ → List Blocker
coverage_blocker threshold none = []
coverage_blocker threshold (some pct) =
    if ltb pct threshold
    then record {
      code = "LOW_COVERAGE";
      severity = warning;
      label_key = "confidence.blockerCoverage";
      detail = record { count = none; value = some pct; threshold = some threshold };
      action_route = "/targets";
      action_key = "confidence.actionGenerateCoverage";
    }
      ∷ []
    else []

schedule_blocker : Option ℕ → List Blocker
schedule_blocker none = []
schedule_blocker (some n) =
    if n == 0
    then record {
      code = "NO_SCHEDULE";
      severity = info;
      label_key = "confidence.blockerNoSchedule";
      detail = record { count = none; value = none; threshold = none };
      action_route = "/schedules";
      action_key = "confidence.actionScheduleSmoke";
    }
      ∷ []
    else []

-- The record `order`.
abbrev pub severity_order : Severity → ℕ
severity_order critical = 0
severity_order warning = 1
severity_order info = 2

abbrev pub severity_le : Blocker → Blocker → Bool
severity_le a b = leb (severity_order a.severity) (severity_order b.severity)

pub record BlockerContext : Type 0 where
  pub coverage_threshold : ℕ
  pub failing : Option ℕ
  pub cov_pct : Option ℕ
  pub health : Option HealthCounts
  pub incidents : Option ℕ

-- The blockers in the order in which they are pushed.
pub pushed_blockers : ConfidenceInput → BlockerContext → List Blocker
unfolding incident_blocker failing_blocker unreachable_blocker coverage_blocker schedule_blocker
pushed_blockers input ctx =
    incident_blocker ctx.incidents
    ++ (failing_blocker ctx.failing
        ++ (unreachable_blocker ctx.health
            ++ (coverage_blocker ctx.coverage_threshold ctx.cov_pct
                ++ schedule_blocker (active_schedule_count input.schedules))))

unfoldable pub build_blockers : ConfidenceInput → BlockerContext → List Blocker
unfolding pushed_blockers sort
build_blockers input ctx = sort severity_le (pushed_blockers input ctx)

module _ (d : Double) where
  pub record ConfidenceResult : Type 0 where
    pub score : Option ℕ
    pub status : ConfidenceStatus
    pub signals : List (MetricSignal d)
    pub blockers : List Blocker
    pub has_enough_data : Bool

  unfoldable pub compute_confidence : ConfidenceInput → ConfidenceOptions → ConfidenceResult
  compute_confidence input opts =
      let threshold = or_else opts.coverage_threshold default_coverage_threshold in
      let fractions = fraction d input in
      let pushed = signals d input threshold in
      let total = available_weight d fractions (d.of_ℕ 0) pushed in
      let score = score_of d fractions pushed in
      record {
        score = score;
        status = status_from_score score;
        signals = if d.lt (d.of_ℕ 0) total then apply_weights d fractions total pushed else pushed;
        blockers = build_blockers input (record {
          coverage_threshold = threshold;
          failing = failing_test_count input.tests;
          cov_pct = coverage_percent d (coverage_fraction d input.coverage);
          health = service_health_counts input.catalog;
          incidents = input.open_critical_incidents;
        });
        has_enough_data = d.lt (d.of_ℕ 0) total;
      }
