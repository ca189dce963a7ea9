-- ===== src/Overview/Failing.antt =====
-- web/src/app/dashboard/page.tsx: the counts of failing tests and of statuses.
use meergate.Base.{
  ℕ, ◌≡◌, ◌≤◌, ◌+◌, refl, arith, inl, inr, String, Bool, false, ◌&&◌, Option, none, some, List, [],
  ◌∷◌, filter, length, Dict, lookup, lookup-insert, or_else, is_some, str_eq, string_eq, eq_iff,
  if◌then◌else◌, Bool-cases,
}
use meergate.Data.{TestItem, CoverageReport, CatalogEntry, GateStatus}
use meergate.GateStatus.{test_service_map}
use meergate.Overview.{status_of}
use meergate.Overview.Page.{
  Overview, Summary, has_failed, service_of, add_one, count_for, count_failing, failing_by_service,
  count_status, count_statuses, summary,
}

-- A test belongs to a service.
abbrev pub belongs_to : Option String → String → Bool
belongs_to none svc = false
belongs_to (some s) svc = str_eq s svc

lookup-add_one :
    (svc s : String) (m : Dict String ℕ)
    → or_else (lookup svc (add_one s m)) 0
      ≡ or_else (lookup svc m) 0 + (if str_eq s svc then 1 else 0)
lookup-add_one svc s m = elim (Bool-cases (str_eq s svc)) [
  | inl h ↦ rw (lookup-insert s svc (or_else (lookup s m) 0 + 1) m, h) (rw ((eq_iff s svc).0 h))
  | inr h ↦ rw (lookup-insert s svc (or_else (lookup s m) 0 + 1) m, h) (omega arith)
]

lookup-count_for :
    (svc : String) (o : Option String) (m : Dict String ℕ)
    → or_else (lookup svc (count_for o m)) 0
      ≡ or_else (lookup svc m) 0 + (if belongs_to o svc then 1 else 0)
lookup-count_for svc none m = omega arith
lookup-count_for svc (some s) m = lookup-add_one svc s m

-- A failing test of the service.
abbrev pub fails_for : Dict String String → String → TestItem → Bool
fails_for services svc x = has_failed x && belongs_to (service_of services x.id) svc

lookup-count_failing :
    (services : Dict String String) (svc : String) (xs : List TestItem) (m : Dict String ℕ)
    → or_else (lookup svc (count_failing services xs m)) 0
      ≡ or_else (lookup svc m) 0 + length (filter (fails_for services svc) xs)
unfolding count_failing
lookup-count_failing services svc [] m = omega arith
lookup-count_failing services svc (x ∷ xs) m = elim (Bool-cases (has_failed x)) [
  | inr h ↦ rw h (lookup-count_failing services svc xs m)
  | inl h ↦ rw h ground (
    arith,
    lookup-count_failing services svc xs (count_for (service_of services x.id) m),
    lookup-count_for svc (service_of services x.id) m,
  )
]

-- A service is counted_services its failing tests, each once: those that `testServiceMap` gives to it.
pub lookup-failing_by_service :
    (coverage : Option CoverageReport) (tests : List TestItem) (svc : String)
    → or_else (lookup svc (failing_by_service coverage tests)) 0
      ≡ length (filter (fails_for (test_service_map coverage) svc) tests)
unfolding failing_by_service lookup
lookup-failing_by_service coverage tests svc =
    omega (arith, lookup-count_failing (test_service_map coverage) svc tests [])

abbrev pub counted_services : Summary → ℕ
counted_services s = s.blocked + s.risky + s.ready

count_statuses-le :
    (status : CatalogEntry → GateStatus) (catalog : List CatalogEntry) (s : Summary)
    → (counted_services (count_statuses status catalog s) ≤ counted_services s + length catalog)
      × ((count_statuses status catalog s).total ≡ s.total)
unfolding count_statuses
count_statuses-le status [] s = (omega arith, refl)
count_statuses-le status (svc ∷ catalog) s =
    ground (arith, count_statuses-le status catalog (count_status (status svc) s))

abbrev initial_summary : Overview → Summary
initial_summary o = record {
  total = length o.catalog;
  blocked = 0;
  risky = 0;
  ready = 0;
  candidates = length (filter (λ g. is_some g.1.candidate) o.gates);
}

-- The services counted_services as blocked, risky or ready are at most the services of the catalog.
pub summary_le : (o : Overview) → counted_services (summary o) ≤ (summary o).total
unfolding summary
summary_le o =
    let h = count_statuses-le (status_of o.gates o.coverage) o.catalog (initial_summary o) in
    rw h.1 (omega (arith, h.0))
