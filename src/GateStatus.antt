-- ===== src/GateStatus.antt =====
-- web/src/lib/gate-status.ts: the coverage of one service, and which service a test belongs to.
pub mod Links
use meergate.Base.{
  ℕ, String, Bool, true, false, Option, none, some, List, [], ◌∷◌, str_eq, string_eq, find, any,
  or_else, ltb, if◌then◌else◌, ◌==◌, length, Dict, lookup, insert, is_some,
}
use meergate.Data.{OperationCoverage, ServiceCoverage, CoverageReport}
use meergate.Double.{Double}

-- `coverage.services.find((s) => s.id === serviceId)`.
abbrev pub find_service : CoverageReport → String → Option ServiceCoverage
find_service report service_id = find (λ s. str_eq s.id service_id) report.services

abbrev pub operations_of : ServiceCoverage → List OperationCoverage
operations_of svc = or_else svc.operations []

abbrev pub tests_of : OperationCoverage → List String
tests_of op = or_else op.test_ids []

module _ (d : Double) where
  percent_of_service : Option ServiceCoverage → Option ℕ
  percent_of_service none = none
  percent_of_service (some svc) =
      if svc.total == 0
      then none
      else some (d.round (d.mul (d.div (d.of_ℕ svc.covered) (d.of_ℕ svc.total)) (d.of_ℕ 100)))

  unfoldable pub service_coverage_pct : Option CoverageReport → String → Option ℕ
  unfolding percent_of_service
  service_coverage_pct none service_id = none
  service_coverage_pct (some report) service_id =
      percent_of_service (find_service report service_id)

unfoldable pub service_has_tests : Option ServiceCoverage → Bool
service_has_tests none = false
service_has_tests (some svc) = any (λ o. ltb 0 (length (tests_of o))) (operations_of svc)

unfoldable pub coverage_has_tests : Option CoverageReport → String → Bool
unfolding service_has_tests
coverage_has_tests none service_id = false
coverage_has_tests (some report) service_id = service_has_tests (find_service report service_id)

-- The three nested loops of `testServiceMap`, from the inside.
pub add_tests : String → List String → Dict String String → Dict String String
add_tests service_id [] m = m
add_tests service_id (tid ∷ tids) m =
    add_tests service_id tids (if is_some (lookup tid m) then m else insert tid service_id m)

pub add_operations : String → List OperationCoverage → Dict String String → Dict String String
unfolding add_tests
add_operations service_id [] m = m
add_operations service_id (op ∷ ops) m =
    add_operations service_id ops (add_tests service_id (tests_of op) m)

pub add_services : List ServiceCoverage → Dict String String → Dict String String
unfolding add_operations
add_services [] m = m
add_services (svc ∷ svcs) m = add_services svcs (add_operations svc.id (operations_of svc) m)

unfoldable pub test_service_map : Option CoverageReport → Dict String String
unfolding add_services
test_service_map none = []
test_service_map (some report) = add_services report.services []
