-- ===== src/GateStatus/Links.antt =====
-- web/src/lib/gate-status.ts, `testServiceMap`: the service that a test is linked to.
use meergate.Base.{
  String, Bool, Option, none, some, List, [], ◌∷◌, ◌≡◌, str_eq, eq_iff, any, find, if◌then◌else◌,
  Dict, lookup, insert, lookup-insert, is_some, Option-cases, inl, inr, arith, string_eq,
}
use meergate.Data.{OperationCoverage, ServiceCoverage, CoverageReport}
use meergate.GateStatus.{
  operations_of, tests_of, add_tests, add_operations, add_services, test_service_map,
}

-- Some operation of the service lists the test.
abbrev pub covers : String → ServiceCoverage → Bool
covers tid svc = any (λ op. any (λ t. str_eq t tid) (tests_of op)) (operations_of svc)

-- A link that is there stays, and a new one is made if the test is listed.
abbrev linked : Option String → Bool → String → Option String
linked (some s) listed service_id = some s
linked none listed service_id = if listed then some service_id else none

lookup-add_tests :
    (tid service_id : String) (tids : List String) (m : Dict String String)
    → lookup tid (add_tests service_id tids m)
      ≡ linked (lookup tid m) (any (λ t. str_eq t tid) tids) service_id
unfolding add_tests
lookup-add_tests tid service_id [] m = elim (Option-cases (lookup tid m)) [
  | inl e ↦ rw e
  | inr (s, e) ↦ rw e
]
lookup-add_tests tid service_id (t ∷ ts) m = ground (
  arith,
  lookup-add_tests tid service_id ts (if is_some (lookup t m) then m else insert t service_id m),
  lookup-insert t tid service_id m,
  eq_iff t tid,
)

lookup-add_operations :
    (tid service_id : String) (ops : List OperationCoverage) (m : Dict String String)
    → lookup tid (add_operations service_id ops m)
      ≡ linked (lookup tid m) (any (λ op. any (λ t. str_eq t tid) (tests_of op)) ops) service_id
unfolding add_operations
lookup-add_operations tid service_id [] m = elim (Option-cases (lookup tid m)) [
  | inl e ↦ rw e
  | inr (s, e) ↦ rw e
]
lookup-add_operations tid service_id (op ∷ ops) m = ground (
  arith,
  lookup-add_operations tid service_id ops (add_tests service_id (tests_of op) m),
  lookup-add_tests tid service_id (tests_of op) m,
)

-- The id of the first service that covers the test.
abbrev pub first_service : String → List ServiceCoverage → Option String
first_service tid svcs = elim (find (covers tid) svcs) [ none ↦ none | some svc ↦ some svc.id ]

abbrev kept : Option String → Option String → Option String
kept (some s) found = some s
kept none found = found

lookup-add_services :
    (tid : String) (svcs : List ServiceCoverage) (m : Dict String String)
    → lookup tid (add_services svcs m) ≡ kept (lookup tid m) (first_service tid svcs)
unfolding add_services
lookup-add_services tid [] m = elim (Option-cases (lookup tid m)) [
  | inl e ↦ rw e
  | inr (s, e) ↦ rw e
]
lookup-add_services tid (svc ∷ svcs) m = ground (
  arith,
  lookup-add_services tid svcs (add_operations svc.id (operations_of svc) m),
  lookup-add_operations tid svc.id (operations_of svc) m,
)

-- In the map a test has the id of the first service, in the order of the report, one of whose
-- operations lists it, and no entry if there is no such service.
pub lookup-test_service_map :
    (report : CoverageReport) (tid : String)
    → lookup tid (test_service_map (some report)) ≡ first_service tid report.services
unfolding test_service_map lookup
lookup-test_service_map report tid = lookup-add_services tid report.services []
