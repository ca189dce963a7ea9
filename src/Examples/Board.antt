-- ===== src/Examples/Board.antt =====
-- web/src/app/dashboard/page.tsx and web/src/components/service-gate-board.tsx with two services.
use mathlib.Core.List.{Perm}
use meergate.Base.{
  ◌≡◌, ◌≤◌, none, refl, String, false, some, [], ◌∷◌, map, filter, length, lookup, or_else,
  string_eq, All, Any, IsSorted, Dict, sort, insert,
}
use meergate.Double.Fixed.{fixed}
use meergate.Data.{CatalogEntry, GateSummary, blocked}
use meergate.Overview.{group_rank, group_status, status_of}
use meergate.Overview.Board.{group_status-worst}
use meergate.Overview.Page.{
  Overview, item_le, service_items, items_for, item_for, count_failing, failing_by_service,
}
use meergate.Overview.Attention.{service_items_lem, needs_attention}
use meergate.Overview.Failing.{lookup-failing_by_service, fails_for}
use meergate.GateStatus.{test_service_map, coverage_has_tests, service_coverage_pct}
use meergate.Examples.Gate.{login_test, trade_test, half_covered}

abbrev service : String → CatalogEntry
service id = record {
  id = id;
  name = "";
  protocol = "grpc";
  target = "host:443";
  domain = "";
  health_status = some "healthy";
}

abbrev gates : Dict String GateSummary
gates =
    (
      "trade",
      record {
        service_id = "trade";
        status = blocked;
        gate_test_count = 1;
        candidate = none;
        diffs = [];
        counts = record {
          new_regressions = 2;
          known_failures = 0;
          fixed = 0;
          still_passing = 0;
          new_test_failures = 0;
        };
      },
    )
    ∷ []

abbrev overview : Overview
overview = record {
  tests = login_test ∷ trade_test ∷ [];
  runs = [];
  coverage = some half_covered;
  catalog = service "auth" ∷ service "trade" ∷ service "other" ∷ [];
  gates = gates;
  loading = false;
}

abbrev same_text : String → String
same_text s = s

group_is_blocked :
    group_status gates (some half_covered) (service "auth" ∷ service "trade" ∷ []) ≡ blocked
unfolding group_status status_of coverage_has_tests lookup sort
group_is_blocked = refl

listed : map (λ i. i.id) (service_items fixed same_text overview) ≡ "auth" ∷ "trade" ∷ "other" ∷ []
unfolding service_items items_for item_for failing_by_service count_failing test_service_map
    status_of service_coverage_pct coverage_has_tests lookup insert sort
listed = refl

group_status-worst_example :
    All
      (λ svc.
        group_rank (group_status gates (some half_covered) (service "auth" ∷ service "trade" ∷ []))
        ≤ group_rank (status_of gates (some half_covered) svc))
      (service "auth" ∷ service "trade" ∷ [])
    × Any
        (λ svc.
          status_of gates (some half_covered) svc
          ≡ group_status gates (some half_covered) (service "auth" ∷ service "trade" ∷ []))
        (service "auth" ∷ service "trade" ∷ [])
group_status-worst_example =
    group_status-worst gates (some half_covered) (service "auth") (service "trade" ∷ [])

service_items_lem_example :
    Perm (map (λ i. i.id) (service_items fixed same_text overview)) (
      map
        (λ s. s.id)
        (filter
          (needs_attention fixed overview (failing_by_service overview.coverage overview.tests))
          overview.catalog))
    × IsSorted item_le (service_items fixed same_text overview)
service_items_lem_example = service_items_lem fixed same_text overview

lookup-failing_by_service_example :
    or_else (lookup "auth" (failing_by_service overview.coverage overview.tests)) 0
    ≡ length (filter (fails_for (test_service_map overview.coverage) "auth") overview.tests)
lookup-failing_by_service_example =
    lookup-failing_by_service overview.coverage overview.tests "auth"
