-- ===== src/Confidence/Checks/Blocking.antt =====
-- web/src/lib/confidence.ts: what the whole release gate decides of an input.
use meergate.Base.{
  ℕ, String, ◌+◌, ◌≡◌, refl, ◌<◌, ◌==◌, ◌||◌, is_none, ◌≤◌, Bool-cases, ◌⊎◌, inl, inr, ◌↔◌, Option,
  none, some, List, [], ◌∷◌, true, or_else, Any, arith, filter, length, if◌then◌else◌,
}
use meergate.Data.{TestItem, CatalogEntry}
use meergate.Double.{Double}
use meergate.Confidence.{
  ConfidenceInput, ConfidenceOptions, GatePolicy, HealthCounts, blocked, default_gate_policy,
  default_critical_tag, failing_test_count, service_health_counts, is_failing, count_health,
  has_health,
}
use meergate.Confidence.Checks.{
  pass, fail, unknown, is_empty, tests_of, has_tag, compute_gate_checks, gate_status_from_checks,
  critical_check, failing_check, services_check, incidents_check, at_most, reachable_status,
}
use meergate.Confidence.Checks.Verdict.{blocked_iff}

-- A count that is known and above what the policy allows.
abbrev pub IsOver : ℕ → Option ℕ → Type 0
IsOver allowed none = ⊥
IsOver allowed (some n) = allowed < n

abbrev pub HasUnreachable : ℕ → Option HealthCounts → Type 0
HasUnreachable allowed none = ⊥
HasUnreachable allowed (some health) = allowed < health.unreachable

-- Some test carries the tag of the release-critical tests and failed.
abbrev pub HasCriticalTestFailing : String → List TestItem → Type 0
HasCriticalTestFailing tag tests = Any (λ t. (has_tag tag t ≡ true) × (is_failing t ≡ true)) tests

critical_failing_iff :
    (tag : String) (tests : List TestItem)
    → (0 < length (filter is_failing (filter (has_tag tag) tests)))
      ↔ HasCriticalTestFailing tag tests
critical_failing_iff tag [] = (λ h. absurd (omega arith), λ h. elim h [ ])
critical_failing_iff tag (t ∷ ts) =
    let ih = critical_failing_iff tag ts in
    elim (Bool-cases (has_tag tag t)) [
      | inl tagged ↦ elim (Bool-cases (is_failing t)) [
        | inl failed ↦ rw (tagged, failed) (λ h. inl (refl, refl), λ a. omega arith)
        | inr passed ↦
            rw (tagged, passed)
              (λ h. inr (ih.0 h), λ a. elim a [ inl both ↦ cc | inr later ↦ ih.1 later ])
      ]
      | inr untagged ↦
          rw untagged (λ h. inr (ih.0 h), λ a. elim a [ inl both ↦ cc | inr later ↦ ih.1 later ])
    ]

count_health-known :
    (h u : ℕ) (es : List CatalogEntry)
    → (count_health h u es).known
      ≡ (count_health h u es).healthy + (count_health h u es).unreachable
unfolding count_health
count_health-known h u [] = refl
count_health-known h u (e ∷ es) =
    count_health-known (if has_health "healthy" e then h + 1 else h)
      (if has_health "healthy" e then u else if has_health "unreachable" e then u + 1 else u) es

-- The known services are those that are healthy and those that are not.
known_at_least :
    (catalog : Option (List CatalogEntry)) (health : HealthCounts)
    → service_health_counts catalog ≡ some health
    → health.unreachable ≤ health.known
unfolding service_health_counts
known_at_least none health e = cc
known_at_least (some es) health e = ground (arith, count_health-known 0 0 es)

IsOver-iff : (o : Option ℕ) (allowed : ℕ) → (at_most o allowed ≡ fail) ↔ IsOver allowed o
IsOver-iff none allowed = (λ e. cc, λ h. elim h [ ])
IsOver-iff (some n) allowed = ground arith

unreachable_iff :
    (o : Option HealthCounts) (allowed : ℕ)
    → ((h : HealthCounts) → o ≡ some h → h.unreachable ≤ h.known)
    → (reachable_status o allowed ≡ fail) ↔ HasUnreachable allowed o
unreachable_iff none allowed le = (λ e. cc, λ h. elim h [ ])
unreachable_iff (some h) allowed le = ground (arith, le h refl)

tagged_iff :
    (l : List TestItem)
    → ((if is_empty l then unknown else if length (filter is_failing l) == 0 then pass else fail)
        ≡ fail)
      ↔ (0 < length (filter is_failing l))
tagged_iff [] = (λ e. cc, λ h. absurd (omega arith))
tagged_iff (t ∷ ts) = count_iff (length (filter is_failing (t ∷ ts)))
  where
    count_iff : (n : ℕ) → ((if n == 0 then pass else fail) ≡ fail) ↔ (0 < n)
    count_iff n = ground arith

critical_status_iff :
    (tag : String) (tests : Option (List TestItem))
    → ((if is_none tests || is_empty (filter (has_tag tag) (or_else tests []))
          then unknown
          else if length (filter is_failing (filter (has_tag tag) (or_else tests []))) == 0
          then pass
          else fail)
        ≡ fail)
      ↔ HasCriticalTestFailing tag (or_else tests [])
critical_status_iff tag none = (λ e. cc, λ h. elim h [ ])
critical_status_iff tag (some ts) =
    let (to, from) = tagged_iff (filter (has_tag tag) ts) in
    let (some_fails, of_some) = critical_failing_iff tag ts in
    (λ e. some_fails (to e), λ h. from (of_some h))

module _ (tag : String) (policy : GatePolicy) (input : ConfidenceInput) where
  abbrev pub IsBlocking : Type 0
  IsBlocking =
      HasCriticalTestFailing tag (tests_of input)
      ⊎ IsOver policy.failing_tests_allowed (failing_test_count input.tests)
      ⊎ HasUnreachable policy.unreachable_services_allowed (service_health_counts input.catalog)
      ⊎ IsOver policy.open_critical_incidents_allowed input.open_critical_incidents

  critical_check_iff :
      ((critical_check tag input).status ≡ fail) ↔ HasCriticalTestFailing tag (tests_of input)
  unfolding critical_check
  critical_check_iff = critical_status_iff tag input.tests

  failing_check_iff :
      ((failing_check policy input).status ≡ fail)
      ↔ IsOver policy.failing_tests_allowed (failing_test_count input.tests)
  unfolding failing_check
  failing_check_iff = IsOver-iff (failing_test_count input.tests) policy.failing_tests_allowed

  services_check_iff :
      ((services_check policy input).status ≡ fail)
      ↔ HasUnreachable policy.unreachable_services_allowed (service_health_counts input.catalog)
  unfolding services_check
  services_check_iff =
      unreachable_iff (service_health_counts input.catalog) policy.unreachable_services_allowed
        (known_at_least input.catalog)

  incidents_check_iff :
      ((incidents_check policy input).status ≡ fail)
      ↔ IsOver policy.open_critical_incidents_allowed input.open_critical_incidents
  unfolding incidents_check
  incidents_check_iff =
      IsOver-iff input.open_critical_incidents policy.open_critical_incidents_allowed

-- The release gate blocks a release exactly when a failed test carries the critical tag, or more
-- tests fail, more services are unreachable or more critical incidents are open than the policy
-- allows. Coverage and schedules never block, and unknown counts do not.
pub gate_blocks_iff :
    (d : Double) (input : ConfidenceInput) (opts : ConfidenceOptions)
    → (gate_status_from_checks (compute_gate_checks d input opts) ≡ blocked)
      ↔ IsBlocking
          (or_else opts.critical_tag default_critical_tag)
          (or_else opts.policy default_gate_policy)
          input
unfolding compute_gate_checks
gate_blocks_iff d input opts =
    let policy = or_else opts.policy default_gate_policy in
    let tag = or_else opts.critical_tag default_critical_tag in
    let (to, from) = blocked_iff (compute_gate_checks d input opts) in
    let c = critical_check_iff tag policy input in
    let f = failing_check_iff tag policy input in
    let s = services_check_iff tag policy input in
    let i = incidents_check_iff tag policy input in
    (
      λ e. ground (arith, to e, c, f, s, i),
      λ b. from (elim b [
        | inl x ↦ inl (c.1 x, refl)
        | inr (inl x) ↦ inr (inl (f.1 x, refl))
        | inr (inr (inl x)) ↦ inr (inr (inr (inl (s.1 x, refl))))
        | inr (inr (inr x)) ↦ inr (inr (inr (inr (inl (i.1 x, refl)))))
      ]),
    )
