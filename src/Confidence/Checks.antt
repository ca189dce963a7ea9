-- ===== src/Confidence/Checks.antt =====
-- web/src/lib/confidence.ts: the release gate, `computeGateChecks` and `gateStatusFromChecks`.
pub mod Verdict
pub mod Blocking
use meergate.Base.{
  ℕ, String, join, Bool, true, false, not, ◌||◌, Option, none, some, List, [], ◌∷◌, ltb, leb, ◌==◌,
  str_eq, if◌then◌else◌, or_else, is_none, length, filter, any, decimal,
}
use meergate.Data.{TestItem}
use meergate.Double.{Double}
use meergate.Confidence.{
  ConfidenceInput, ConfidenceOptions, ConfidenceStatus, ready, watch, risky, blocked, Severity,
  critical, info, GatePolicy, HealthCounts, coverage_percent, failing_test_count,
  service_health_counts, active_schedule_count, default_critical_tag, default_gate_policy,
  coverage_fraction, is_failing,
}

pub data GateCheckId : Type 0 where
  critical_tests no_failing coverage_threshold services_reachable : GateCheckId
  no_critical_incidents smoke_scheduled : GateCheckId

pub data GateCheckStatus : Type 0 where
  pass fail unknown : GateCheckStatus

pub data GateImpact : Type 0 where
  blocks warning : GateImpact

pub record CheckContext : Type 0 where
  pub value : Option ℕ
  pub threshold : Option ℕ
  pub count : Option ℕ

pub record GateCheck : Type 0 where
  pub id : GateCheckId
  pub status : GateCheckStatus
  pub severity : Severity
  pub impact : GateImpact
  pub title_key : String
  pub description_key : String
  pub action_route : String
  pub action_key : String
  pub current : String
  pub required : String
  pub context : CheckContext

abbrev num : Option ℕ → String
num none = "—"
num (some n) = decimal n

abbrev counting : Option ℕ → CheckContext
counting n = record { value = none; threshold = none; count = n }

-- `t.tags?.includes(tag)`.
abbrev pub has_tag : String → TestItem → Bool
has_tag tag t = elim t.tags [ none ↦ false | some tags ↦ any (λ x. str_eq x tag) tags ]

-- `input.tests ?? []`.
abbrev pub tests_of : ConfidenceInput → List TestItem
tests_of input = or_else input.tests []

abbrev pub is_empty {ℓ} : {A : Type ℓ} → List A → Bool
is_empty [] = true
is_empty (x ∷ xs) = false

pub critical_tests_of : String → ConfidenceInput → List TestItem
critical_tests_of tag input = filter (has_tag tag) (tests_of input)

pub critical_check : String → ConfidenceInput → GateCheck
unfolding critical_tests_of
critical_check tag input =
    let failing = length (filter is_failing (critical_tests_of tag input)) in
    let missing = is_none input.tests || is_empty (critical_tests_of tag input) in
    record {
      id = critical_tests;
      status = if missing then GateCheckStatus.unknown else if failing == 0 then pass else fail;
      severity = critical;
      impact = blocks;
      title_key = "releaseGates.checkCriticalTests";
      description_key =
          if missing
          then "releaseGates.checkCriticalTestsUnknown"
          else "releaseGates.checkCriticalTestsDesc";
      action_route = "/tests?filter=critical";
      action_key =
          if missing then "releaseGates.actionMarkCritical" else "releaseGates.actionViewCritical";
      current = if missing then "—" else decimal failing;
      required = "0";
      context = counting (some failing);
    }

abbrev pub at_most : Option ℕ → ℕ → GateCheckStatus
at_most none allowed = GateCheckStatus.unknown
at_most (some n) allowed = if leb n allowed then pass else fail

pub failing_check : GatePolicy → ConfidenceInput → GateCheck
failing_check policy input =
    let failing = failing_test_count input.tests in
    record {
      id = no_failing;
      status = at_most failing policy.failing_tests_allowed;
      severity = critical;
      impact = blocks;
      title_key = "releaseGates.checkNoFailing";
      description_key = "releaseGates.checkNoFailingDesc";
      action_route = "/tests?tab=runs&status=failed";
      action_key = "releaseGates.actionOpenFailures";
      current = num failing;
      required = decimal policy.failing_tests_allowed;
      context = counting failing;
    }

abbrev at_least : Option ℕ → ℕ → GateCheckStatus
at_least none threshold = GateCheckStatus.unknown
at_least (some pct) threshold = if leb threshold pct then pass else fail

abbrev percent_text : Option ℕ → String
percent_text none = "—"
percent_text (some pct) = join (decimal pct) "%"

pub coverage_check : ℕ → Option ℕ → GateCheck
coverage_check threshold pct = record {
  id = coverage_threshold;
  status = at_least pct threshold;
  severity = Severity.warning;
  impact = warning;
  title_key = "releaseGates.checkCoverage";
  description_key = "releaseGates.checkCoverageDesc";
  action_route = "/targets";
  action_key = "releaseGates.actionImproveCoverage";
  current = percent_text pct;
  required = join "≥" (join (decimal threshold) "%");
  context = record { value = pct; threshold = some threshold; count = none };
}

abbrev reachable_status : Option HealthCounts → ℕ → GateCheckStatus
reachable_status none allowed = GateCheckStatus.unknown
reachable_status (some health) allowed =
    if health.known == 0
    then GateCheckStatus.unknown
    else if leb health.unreachable allowed
    then pass
    else fail

abbrev unreachable_of : Option HealthCounts → Option ℕ
unreachable_of none = none
unreachable_of (some health) = some health.unreachable

pub services_check : GatePolicy → ConfidenceInput → GateCheck
services_check policy input =
    let health = service_health_counts input.catalog in
    record {
      id = services_reachable;
      status = reachable_status health policy.unreachable_services_allowed;
      severity = critical;
      impact = blocks;
      title_key = "releaseGates.checkServices";
      description_key = "releaseGates.checkServicesDesc";
      action_route = "/targets";
      action_key = "releaseGates.actionCheckServices";
      current = num (unreachable_of health);
      required = decimal policy.unreachable_services_allowed;
      context = counting (unreachable_of health);
    }

pub incidents_check : GatePolicy → ConfidenceInput → GateCheck
incidents_check policy input = record {
  id = no_critical_incidents;
  status = at_most input.open_critical_incidents policy.open_critical_incidents_allowed;
  severity = critical;
  impact = blocks;
  title_key = "releaseGates.checkIncidents";
  description_key = "releaseGates.checkIncidentsDesc";
  action_route = "/alerts";
  action_key = "releaseGates.actionReviewIncidents";
  current = num input.open_critical_incidents;
  required = decimal policy.open_critical_incidents_allowed;
  context = counting input.open_critical_incidents;
}

abbrev scheduled_status : Option ℕ → Bool → GateCheckStatus
scheduled_status none needed = GateCheckStatus.unknown
scheduled_status (some active) needed = if not needed || ltb 0 active then pass else fail

pub schedule_check : GatePolicy → ConfidenceInput → GateCheck
schedule_check policy input =
    let active = active_schedule_count input.schedules in
    record {
      id = smoke_scheduled;
      status = scheduled_status active policy.scheduled_run_required;
      severity = info;
      impact = warning;
      title_key = "releaseGates.checkSmoke";
      description_key = "releaseGates.checkSmokeDesc";
      action_route = "/schedules";
      action_key = "releaseGates.actionScheduleSmoke";
      current = num active;
      required = if policy.scheduled_run_required then "≥1" else "0";
      context = counting active;
    }

-- The checks in the order in which they are pushed.
unfoldable pub compute_gate_checks : Double → ConfidenceInput → ConfidenceOptions → List GateCheck
unfolding critical_check failing_check coverage_check services_check incidents_check schedule_check
compute_gate_checks d input opts =
    let policy = or_else opts.policy default_gate_policy in
    let threshold = or_else opts.coverage_threshold policy.coverage_threshold in
    let tag = or_else opts.critical_tag default_critical_tag in
    critical_check tag input
    ∷ failing_check policy input
    ∷ coverage_check threshold (coverage_percent d (coverage_fraction d input.coverage))
    ∷ services_check policy input
    ∷ incidents_check policy input
    ∷ schedule_check policy input
    ∷ []

abbrev pub is_known : GateCheck → Bool
is_known c = elim c.status [ unknown ↦ false | _ ↦ true ]

abbrev pub is_failed : GateCheck → Bool
is_failed c = elim c.status [ fail ↦ true | _ ↦ false ]

abbrev pub is_critical : GateCheck → Bool
is_critical c = elim c.severity [ critical ↦ true | _ ↦ false ]

abbrev pub is_warning : GateCheck → Bool
is_warning c = elim c.severity [ Severity.warning ↦ true | _ ↦ false ]

unfoldable pub gate_status_from_checks : List GateCheck → ConfidenceStatus
gate_status_from_checks checks =
    let known = filter is_known checks in
    let failed = filter is_failed known in
    if is_empty known
    then ConfidenceStatus.unknown
    else if any is_critical failed
    then blocked
    else if any is_warning failed
    then risky
    else if not (is_empty failed)
    then watch
    else ready
