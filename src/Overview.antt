-- ===== src/Overview.antt =====
-- web/src/components/service-gate-board.tsx: the groups of services and their status. The children
-- are the overview, web/src/app/dashboard/page.tsx. An object keyed by service ids is a map.
pub mod Board
pub mod Page
pub mod Failing
pub mod Attention
use meergate.Base.{
  ℕ, ◌+◌, String, Bool, true, false, Option, none, some, List, [], ◌∷◌, map, filter, find, length,
  Dict, lookup, insert, or_else, is_some, str_eq, if◌then◌else◌, string_eq, ltb, leb, ◌==◌, ◌||◌,
  sort,
}
use meergate.Base.Grouping.{group_from}
use meergate.Data.{
  CatalogEntry, CoverageReport, GateSummary, GateStatus, ready, watch, blocked, no_baseline,
  not_configured, evaluating, TestItem, OperationCoverage, ServiceCoverage, RunItem,
}
use meergate.GateStatus.{coverage_has_tests, service_coverage_pct, test_service_map}
use meergate.Double.{Double}
use meergate.Base.Outcome.{Outcome, resolved, thrown}

abbrev pub group_rank : GateStatus → ℕ
group_rank blocked = 0
group_rank watch = 1
group_rank evaluating = 2
group_rank ready = 3
group_rank no_baseline = 4
group_rank not_configured = 5

-- A service without a gate has one with no baseline if tests cover it.
unfoldable pub status_of :
    Dict String GateSummary → Option CoverageReport → CatalogEntry → GateStatus
status_of gates coverage svc = elim (lookup svc.id gates) [
  | some gate ↦ gate.status
  | none ↦ if coverage_has_tests coverage svc.id then no_baseline else not_configured
]

-- The services of each target.
unfoldable pub groups : List CatalogEntry → Dict String (List CatalogEntry)
groups services = group_from (λ s. s.target) services []

abbrev pub rank_le : GateStatus → GateStatus → Bool
rank_le a b = leb (group_rank a) (group_rank b)

abbrev first_or : GateStatus → List GateStatus → GateStatus
first_or d [] = d
first_or d (s ∷ ss) = s

unfoldable pub group_status :
    Dict String GateSummary → Option CoverageReport → List CatalogEntry → GateStatus
group_status gates coverage items =
    first_or not_configured (sort rank_le (map (status_of gates coverage) items))
