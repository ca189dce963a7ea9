-- ===== src/Overview/Page.antt =====
-- web/src/app/dashboard/page.tsx: what the overview loads, counts and lists. The encoder of a URL
-- is a parameter.
use meergate.Base.{
  ℕ, ◌+◌, String, join, Bool, true, false, Option, none, some, List, [], ◌∷◌, ◌++◌, filter, any,
  length, Dict, lookup, insert, or_else, is_some, str_eq, string_eq, if◌then◌else◌, ltb, leb, sort,
}
use meergate.Base.Outcome.{Outcome, resolved, thrown}
use meergate.Data.{
  CatalogEntry, CoverageReport, GateSummary, GateStatus, watch, blocked, not_configured, TestItem,
  RunItem,
}
use meergate.GateStatus.{service_coverage_pct, test_service_map}
use meergate.Double.{Double}
use meergate.Overview.{status_of}

-- What was loaded.
pub record Overview : Type 0 where
  pub tests : List TestItem
  pub runs : List RunItem
  pub coverage : Option CoverageReport
  pub catalog : List CatalogEntry
  pub gates : Dict String GateSummary
  pub loading : Bool

-- The value of `Promise.allSettled` if the promise was fulfilled.
abbrev pub settled {ℓ} : {A : Type ℓ} → Outcome A → A → A
settled (resolved a) d = a
settled (thrown e) d = d

abbrev pub settled_list {ℓ} : {A : Type ℓ} → Outcome (Option (List A)) → List A
settled_list o = or_else (settled o none) []

abbrev pub settled_report : Outcome CoverageReport → Option CoverageReport
settled_report (resolved report) = some report
settled_report (thrown e) = none

unfoldable pub load :
    Outcome (Option (List TestItem))
    → Outcome (Option (List RunItem))
    → Outcome CoverageReport
    → Outcome (List CatalogEntry)
    → Outcome (Dict String GateSummary)
    → Overview
load tests runs coverage catalog gates = record {
  tests = settled_list tests;
  runs = settled_list runs;
  coverage = settled_report coverage;
  catalog = settled catalog [];
  gates = settled gates [];
  loading = false;
}

abbrev pub failing_statuses : List String
failing_statuses = "failed" ∷ "error" ∷ []

-- `x.lastRunStatus && FAILING.has(x.lastRunStatus)`, where FAILING does not have the empty text.
abbrev pub has_failed : TestItem → Bool
has_failed x = elim x.last_run_status [
  | none ↦ false
  | some status ↦ any (λ s. str_eq s status) failing_statuses
]

-- The service of a test, if it has one and its id is not empty.
abbrev pub service_of : Dict String String → String → Option String
service_of test_to_service id = elim (lookup id test_to_service) [
  | none ↦ none
  | some svc ↦ if str_eq svc "" then none else some svc
]

abbrev pub add_one : String → Dict String ℕ → Dict String ℕ
add_one svc m = insert svc (or_else (lookup svc m) 0 + 1) m

abbrev pub count_for : Option String → Dict String ℕ → Dict String ℕ
count_for none m = m
count_for (some svc) m = add_one svc m

unfoldable pub count_failing : Dict String String → List TestItem → Dict String ℕ → Dict String ℕ
count_failing services [] m = m
count_failing services (x ∷ xs) m =
    count_failing services xs (if has_failed x then count_for (service_of services x.id) m else m)

unfoldable pub failing_by_service : Option CoverageReport → List TestItem → Dict String ℕ
failing_by_service coverage tests = count_failing (test_service_map coverage) tests []

pub record Summary : Type 0 where
  pub total : ℕ
  pub blocked : ℕ
  pub risky : ℕ
  pub ready : ℕ
  pub candidates : ℕ

abbrev pub count_status : GateStatus → Summary → Summary
count_status GateStatus.blocked s = record s { blocked = s.blocked + 1 }
count_status watch s = record s { risky = s.risky + 1 }
count_status GateStatus.ready s = record s { ready = s.ready + 1 }
count_status other s = s

unfoldable pub count_statuses : (CatalogEntry → GateStatus) → List CatalogEntry → Summary → Summary
count_statuses status [] s = s
count_statuses status (svc ∷ catalog) s =
    count_statuses status catalog (count_status (status svc) s)

unfoldable pub summary : Overview → Summary
summary o = count_statuses (status_of o.gates o.coverage) o.catalog (record {
  total = length o.catalog;
  blocked = 0;
  risky = 0;
  ready = 0;
  candidates = length (filter (λ g. is_some g.1.candidate) o.gates);
})

pub data ItemSeverity : Type 0 where
  red amber slate : ItemSeverity

pub record ServiceItem : Type 0 where
  pub id : String
  pub name : String
  pub status : GateStatus
  pub severity : ItemSeverity
  pub reason_key : String
  pub reason_count : Option ℕ
  pub action_key : String
  pub action_route : String

-- `svc.name || svc.id`.
abbrev pub service_name : CatalogEntry → String
service_name svc = if str_eq svc.name "" then svc.id else svc.name

abbrev pub rank : ItemSeverity → ℕ
rank red = 0
rank amber = 1
rank slate = 2

abbrev pub rank_at_most : ItemSeverity → ItemSeverity → Bool
rank_at_most a b = leb (rank a) (rank b)

abbrev pub item_le : ServiceItem → ServiceItem → Bool
item_le a b = rank_at_most a.severity b.severity

abbrev pub is_unreachable : CatalogEntry → Bool
is_unreachable svc = elim svc.health_status [ none ↦ false | some h ↦ str_eq h "unreachable" ]

abbrev pub is_low : Option ℕ → Bool
is_low none = false
is_low (some pct) = ltb pct 70

abbrev pub is_blocked : GateStatus → Bool
is_blocked blocked = true
is_blocked other = false

abbrev pub is_not_configured : GateStatus → Bool
is_not_configured not_configured = true
is_not_configured other = false

abbrev pub new_regressions_of : Option GateSummary → ℕ
new_regressions_of none = 0
new_regressions_of (some gate) = gate.counts.new_regressions

module _ (d : Double) (encode : String → String) where
  -- What one service adds to the list.
  unfoldable pub item_for : Overview → Dict String ℕ → CatalogEntry → List ServiceItem
  item_for o failing svc =
      let status = status_of o.gates o.coverage svc in
      let failed = or_else (lookup svc.id failing) 0 in
      let new_reg = new_regressions_of (lookup svc.id o.gates) in
      let gate_route = join "/release-gates/" (encode svc.id) in
      if is_blocked status
      then record {
        id = svc.id;
        name = service_name svc;
        status = status;
        severity = red;
        reason_key =
            if ltb 0 new_reg
            then "overview.reasonNewRegressions"
            else "overview.reasonFailingTests";
        reason_count = some (if ltb 0 new_reg then new_reg else failed);
        action_key = "overview.actionOpenGate";
        action_route = gate_route;
      }
        ∷ []
      else if is_unreachable svc
      then record {
        id = svc.id;
        name = service_name svc;
        status = status;
        severity = amber;
        reason_key = "overview.reasonUnreachable";
        reason_count = none;
        action_key = "overview.actionCheckService";
        action_route = "/targets";
      }
        ∷ []
      else if ltb 0 failed
      then record {
        id = svc.id;
        name = service_name svc;
        status = status;
        severity = red;
        reason_key = "overview.reasonFailingTests";
        reason_count = lookup svc.id failing;
        action_key = "overview.actionOpenGate";
        action_route = gate_route;
      }
        ∷ []
      else if is_low (service_coverage_pct d o.coverage svc.id)
      then record {
        id = svc.id;
        name = service_name svc;
        status = status;
        severity = amber;
        reason_key = "overview.reasonCoverageLow";
        reason_count = none;
        action_key = "overview.actionGenerateCoverageShort";
        action_route = "/targets";
      }
        ∷ []
      else if is_not_configured status
      then record {
        id = svc.id;
        name = service_name svc;
        status = status;
        severity = slate;
        reason_key = "overview.reasonNoCoverage";
        reason_count = none;
        action_key = "overview.actionGenerateCoverageShort";
        action_route = "/targets";
      }
        ∷ []
      else []

  unfoldable pub items_for : Overview → Dict String ℕ → List CatalogEntry → List ServiceItem
  items_for o failing [] = []
  items_for o failing (svc ∷ catalog) = item_for o failing svc ++ items_for o failing catalog

  unfoldable pub service_items : Overview → List ServiceItem
  service_items o = sort item_le (items_for o (failing_by_service o.coverage o.tests) o.catalog)
