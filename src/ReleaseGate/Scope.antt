-- ===== src/ReleaseGate/Scope.antt =====
-- The tests of a gate: web/src/components/new-release-modal.tsx counts them, and
-- web/src/lib/gate-status.ts and the page of the gate read them from the same report.
use meergate.Base.{
  ◌≡◌, ◌≤◌, refl, ◌∙◌, arith, String, true, ◌||◌, Option, none, some, List, [], ◌∷◌, any, length,
  ltb, string_eq,
}
use meergate.Data.{OperationCoverage, ServiceCoverage, CoverageReport}
use meergate.GateStatus.{
  find_service, operations_of, tests_of, coverage_has_tests, service_has_tests,
}
use meergate.ReleaseGate.{add_test_id, add_test_ids, ids_of, count_ids, gate_test_count}

-- A text for none of the ids means that there are none.
add_test_id-le : (id : String) (ids : List String) → (length ids ≤ length (add_test_id id ids))
add_test_id-le id ids = ground arith

add_test_id-pos : (id : String) (ids : List String) → ltb 0 (length (add_test_id id ids)) ≡ true
add_test_id-pos id [] = refl
add_test_id-pos id (x ∷ xs) = ground arith

add_test_ids-pos :
    (more ids : List String)
    → ltb 0 (length (add_test_ids more ids)) ≡ (ltb 0 (length more) || ltb 0 (length ids))
add_test_ids-pos [] ids = refl
add_test_ids-pos (id ∷ more) ids =
    rw (add_test_ids-pos more (add_test_id id ids), add_test_id-pos id ids) (ground arith)

ids_of-pos :
    (ops : List OperationCoverage) (ids : List String)
    → ltb 0 (length (ids_of ops ids))
      ≡ (any (λ o. ltb 0 (length (tests_of o))) ops || ltb 0 (length ids))
ids_of-pos [] ids = refl
ids_of-pos (op ∷ ops) ids =
    rw (ids_of-pos ops (add_test_ids (tests_of op) ids), add_test_ids-pos (tests_of op) ids)
      (ground arith)

count_ids-pos : (o : Option ServiceCoverage) → ltb 0 (count_ids o) ≡ service_has_tests o
unfolding service_has_tests
count_ids-pos none = refl
count_ids-pos (some svc) = ids_of-pos (operations_of svc) [] ∙ ground arith

-- The form counts tests for a service exactly where the board says that its gate has tests.
pub gate_test_count-coverage_has_tests :
    (coverage : Option CoverageReport) (service_id : String)
    → ltb 0 (gate_test_count coverage service_id) ≡ coverage_has_tests coverage service_id
unfolding gate_test_count coverage_has_tests
gate_test_count-coverage_has_tests none service_id = refl
gate_test_count-coverage_has_tests (some report) service_id =
    count_ids-pos (find_service report service_id)
