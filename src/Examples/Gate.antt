-- ===== src/Examples/Gate.antt =====
-- web/src/lib/confidence.ts and web/src/lib/gate-status.ts on a small project.
use meergate.Base.{true, false, none, some, [], ◌∷◌, ◌≡◌, ◌≤◌, ◌↔◌, refl, All, string_eq}
use meergate.Data.{TestItem, CoverageReport}
use meergate.Double.Fixed.{fixed, fixed-IsIeee}
use meergate.Confidence.{
  ConfidenceInput, ConfidenceOptions, blocked, risky, coverage_fraction, coverage_percent,
  default_gate_policy, default_critical_tag, coverage, failing_tests, service_health, incidents,
  schedules, SignalKey, default_coverage_threshold, status_from_score, failing_test_count,
  service_health_counts, active_schedule_count,
}
use meergate.Confidence.Score.{
  fraction, signals, available_weight, score_of, accumulate, apply_weights, clamp_score,
}
use meergate.Confidence.Score.Order.{NotWorse, score_mono, status_rank}
use meergate.Confidence.Score.Range.{score-none_iff, keys}
use meergate.Confidence.Blockers.{compute_confidence, build_blockers}
use meergate.Confidence.Blockers.Reasons.{no_blockers_iff, NothingWrong}
use meergate.Confidence.Checks.{compute_gate_checks, gate_status_from_checks}
use meergate.Confidence.Checks.Verdict.{gate_status-worst, badness, worst}
use meergate.Confidence.Checks.Blocking.{gate_blocks_iff, IsBlocking}
use meergate.GateStatus.{coverage_has_tests, service_coverage_pct}

abbrev pub login_test : TestItem
login_test = record {
  id = "login";
  name = "Login";
  suite = "auth";
  tags = some ("critical" ∷ []);
  last_run_status = some "failed";
  last_run_at = none;
  pass_rate = none;
  flake_score = none;
  owner = none;
}

abbrev pub trade_test : TestItem
trade_test = record {
  id = "trade";
  name = "Trade";
  suite = "trade";
  tags = some [];
  last_run_status = some "passed";
  last_run_at = none;
  pass_rate = none;
  flake_score = none;
  owner = none;
}

abbrev pub half_covered : CoverageReport
half_covered = record {
  services =
      record {
        id = "auth";
        total = 2;
        covered = 1;
        operations = some (
            record { name = "Login"; covered = true; test_ids = some ("login" ∷ []) }
            ∷ record { name = "Logout"; covered = false; test_ids = none }
            ∷ []);
      }
      ∷ record {
        id = "trade";
        total = 2;
        covered = 1;
        operations = some (
            record { name = "Buy"; covered = true; test_ids = some ("trade" ∷ "login" ∷ []) } ∷ []);
      }
      ∷ [];
  total_operations = 4;
  covered_operations = 2;
}

abbrev input : ConfidenceInput
input = record {
  tests = some (login_test ∷ trade_test ∷ []);
  coverage = some half_covered;
  catalog = some (
      record {
        id = "a";
        name = "auth";
        protocol = "grpc";
        target = "host:443";
        domain = "";
        health_status = some "healthy";
      }
      ∷ []);
  schedules = some (
      record {
        id = "s";
        name = "nightly";
        cron = "0 3 * * *";
        tags = [];
        test_ids = "login" ∷ [];
        mode = "real";
        enabled = true;
        notify_url = none;
        rerun_on_fail = false;
        max_reruns = 1;
        session_id = none;
      }
      ∷ []);
  open_critical_incidents = some 0;
}

-- The same project when its tests pass.
abbrev mended : ConfidenceInput
mended = record input {
  tests = some (record login_test { last_run_status = some "passed" } ∷ trade_test ∷ []);
}

abbrev options : ConfidenceOptions
options = record { coverage_threshold = none; critical_tag = none; policy = none }

engine : Unit {0}
unfolding gate_status_from_checks compute_gate_checks failing_test_count service_health_counts
    active_schedule_count coverage_fraction coverage_percent compute_confidence build_blockers
    score_of signals fraction available_weight accumulate apply_weights clamp_score
    status_from_score
engine = tt

gate_blocked : gate_status_from_checks (compute_gate_checks fixed input options) ≡ blocked
unfolding engine
gate_blocked = refl

gate_warns : gate_status_from_checks (compute_gate_checks fixed mended options) ≡ risky
unfolding engine
gate_warns = refl

score_input : (compute_confidence fixed input options).score ≡ some 70
unfolding engine
score_input = refl

score_mended : (compute_confidence fixed mended options).score ≡ some 85
unfolding engine
score_mended = refl

gate_blocks_iff_example :
    (gate_status_from_checks (compute_gate_checks fixed input options) ≡ blocked)
    ↔ IsBlocking default_critical_tag default_gate_policy input
gate_blocks_iff_example = gate_blocks_iff fixed input options

gate_status-worst_example :
    badness (gate_status_from_checks (compute_gate_checks fixed input options))
    ≡ worst (compute_gate_checks fixed input options)
gate_status-worst_example = gate_status-worst (compute_gate_checks fixed input options)

score_mono_example :
    (70 ≤ 85)
    × (status_rank (compute_confidence fixed input options).status
        ≤ status_rank (compute_confidence fixed mended options).status)
unfolding engine
score_mono_example =
    score_mono fixed fixed-IsIeee input mended options better 70 85 score_input score_mended
  where
    better : (k : SignalKey) → NotWorse fixed (fraction fixed input k) (fraction fixed mended k)
    better coverage = refl
    better failing_tests = refl
    better service_health = refl
    better incidents = refl
    better schedules = refl

score-none_iff_example :
    (((compute_confidence fixed input options).score ≡ none)
      ↔ All (λ k. fraction fixed input k ≡ none) keys)
    × (((compute_confidence fixed input options).has_enough_data ≡ false)
        ↔ ((compute_confidence fixed input options).score ≡ none))
score-none_iff_example = score-none_iff fixed fixed-IsIeee input options

no_blockers_iff_example :
    ((compute_confidence fixed mended options).blockers ≡ [])
    ↔ NothingWrong default_coverage_threshold mended
        (coverage_percent fixed (coverage_fraction fixed (some half_covered)))
no_blockers_iff_example = no_blockers_iff fixed mended options

service_numbers :
    (service_coverage_pct fixed (some half_covered) "auth" ≡ some 50)
    × (coverage_has_tests (some half_covered) "auth" ≡ true)
    × (coverage_has_tests (some half_covered) "none" ≡ false)
unfolding service_coverage_pct coverage_has_tests
service_numbers = (refl, refl, refl)
