-- ===== src/Data.antt =====
-- web/src/lib/api.ts: the records of the server that the release decision reads. A field that
-- may be absent, null or undefined is an `Option`; fields that no modelled code reads are left out.
use meergate.Base.{ℕ, String, Bool, Option, List}

pub record TestItem : Type 0 where
  pub id : String
  pub name : String
  pub suite : String
  pub tags : Option (List String)
  pub last_run_status : Option String
  pub last_run_at : Option String
  pub pass_rate : Option ℕ
  pub flake_score : Option ℕ
  pub owner : Option String

pub record CatalogEntry : Type 0 where
  pub id : String
  pub name : String
  pub protocol : String
  pub target : String
  pub domain : String
  pub health_status : Option String

pub record ScheduleItem : Type 0 where
  pub id : String
  pub name : String
  pub cron : String
  pub tags : List String
  pub test_ids : List String
  pub mode : String
  pub enabled : Bool
  pub notify_url : Option String
  pub rerun_on_fail : Bool
  pub max_reruns : ℕ
  pub session_id : Option String

pub record OperationCoverage : Type 0 where
  pub name : String
  pub covered : Bool
  pub test_ids : Option (List String)

pub record ServiceCoverage : Type 0 where
  pub id : String
  pub total : ℕ
  pub covered : ℕ
  pub operations : Option (List OperationCoverage)

pub record CoverageReport : Type 0 where
  pub services : List ServiceCoverage
  pub total_operations : ℕ
  pub covered_operations : ℕ

pub record TestResultSnapshot : Type 0 where
  pub test_id : String
  pub run_id : String
  pub status : String

pub record ReleaseCandidate : Type 0 where
  pub id : String
  pub label : String
  pub results : List TestResultSnapshot

pub data RegressionType : Type 0 where
  new_regression known_failure fixed_test still_passing new_test_failure : RegressionType
  new_test_passing missing : RegressionType

pub record TestDiff : Type 0 where
  pub test_id : String
  pub kind : RegressionType

pub record RegressionCounts : Type 0 where
  pub new_regressions : ℕ
  pub known_failures : ℕ
  pub fixed : ℕ
  pub still_passing : ℕ
  pub new_test_failures : ℕ

pub data GateStatus : Type 0 where
  ready watch blocked no_baseline not_configured evaluating : GateStatus

pub record GateSummary : Type 0 where
  pub service_id : String
  pub status : GateStatus
  pub gate_test_count : ℕ
  pub candidate : Option ReleaseCandidate
  pub diffs : List TestDiff
  pub counts : RegressionCounts

pub record RunItem : Type 0 where
  pub id : String
  pub test_id : String
  pub status : String
  pub trigger : String
  pub environment : Option String
  pub duration_ms : Option ℕ
  pub created_at : String
