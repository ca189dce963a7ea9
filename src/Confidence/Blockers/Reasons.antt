-- ===== src/Confidence/Blockers/Reasons.antt =====
-- web/src/lib/confidence.ts, `buildBlockers`: which blockers there are, and their order.
use meergate.Base.{
  ℕ, ◌≡◌, refl, ◌≤◌, ◌<◌, ◌↔◌, Option, none, some, List, [], ◌∷◌, ◌++◌, arith, IfKnown, or_else,
  IsSorted, sort_of_IsSorted,
}
use meergate.Double.{Double}
use meergate.Confidence.{
  ConfidenceInput, ConfidenceOptions, HealthCounts, active_schedule_count, failing_test_count,
  service_health_counts, coverage_percent, coverage_fraction, default_coverage_threshold,
}
use meergate.Confidence.Blockers.{
  BlockerContext, severity_le, pushed_blockers, build_blockers, compute_confidence,
  incident_blocker, failing_blocker, unreachable_blocker, coverage_blocker, schedule_blocker,
}

pushed_blockers-IsSorted :
    (input : ConfidenceInput) (ctx : BlockerContext)
    → IsSorted severity_le (pushed_blockers input ctx)
unfolding pushed_blockers
pushed_blockers-IsSorted input ctx = ground arith

-- The sort changes nothing: the blockers are pushed in the order of their severity.
pub build_blockers_lem :
    (input : ConfidenceInput) (ctx : BlockerContext)
    → build_blockers input ctx ≡ pushed_blockers input ctx
unfolding build_blockers
build_blockers_lem input ctx = sort_of_IsSorted severity_le _ (pushed_blockers-IsSorted input ctx)

abbrev pub NothingWrong : (threshold : ℕ) → ConfidenceInput → Option ℕ → Type 0
NothingWrong threshold input pct =
    IfKnown (λ n. n ≡ 0) input.open_critical_incidents
    × IfKnown (λ n. n ≡ 0) (failing_test_count input.tests)
    × IfKnown (λ h. h.unreachable ≡ 0) (service_health_counts input.catalog)
    × IfKnown (λ p. threshold ≤ p) pct
    × IfKnown (λ n. 0 < n) (active_schedule_count input.schedules)

append-nil_iff {ℓ} : {A : Type ℓ} (xs ys : List A) → (xs ++ ys ≡ []) ↔ ((xs ≡ []) × (ys ≡ []))
append-nil_iff [] ys = (λ e. (refl, e), λ e. e.1)
append-nil_iff (x ∷ xs) ys = (λ e. cc, λ e. cc)

-- Each kind of blocker, by the case that is known.
no_incident_iff : (o : Option ℕ) → (incident_blocker o ≡ []) ↔ IfKnown (λ n. n ≡ 0) o
unfolding incident_blocker
no_incident_iff none = (λ e. tt, λ e. refl)
no_incident_iff (some n) = ground arith

no_failing_iff : (o : Option ℕ) → (failing_blocker o ≡ []) ↔ IfKnown (λ n. n ≡ 0) o
unfolding failing_blocker
no_failing_iff none = (λ e. tt, λ e. refl)
no_failing_iff (some n) = ground arith

no_unreachable_iff :
    (o : Option HealthCounts) → (unreachable_blocker o ≡ []) ↔ IfKnown (λ h. h.unreachable ≡ 0) o
unfolding unreachable_blocker
no_unreachable_iff none = (λ e. tt, λ e. refl)
no_unreachable_iff (some h) = ground arith

no_low_coverage_iff : (t : ℕ) (o : Option ℕ) → (coverage_blocker t o ≡ []) ↔ IfKnown (λ p. t ≤ p) o
unfolding coverage_blocker
no_low_coverage_iff t none = (λ e. tt, λ e. refl)
no_low_coverage_iff t (some p) = ground arith

no_schedule_iff : (o : Option ℕ) → (schedule_blocker o ≡ []) ↔ IfKnown (λ n. 0 < n) o
unfolding schedule_blocker
no_schedule_iff none = (λ e. tt, λ e. refl)
no_schedule_iff (some n) = ground arith

-- An empty concatenation, part by part.
both_iff {ℓ} :
    {A : Type ℓ} (xs ys : List A) {P Q : Type 0}
    → (xs ≡ []) ↔ P
    → (ys ≡ []) ↔ Q
    → (xs ++ ys ≡ []) ↔ (P × Q)
both_iff xs ys p q =
    let (to, from) = append-nil_iff xs ys in
    (λ e. (p.0 (to e).0, q.0 (to e).1), λ e. from (p.1 e.0, q.1 e.1))

none_pushed_iff :
    (input : ConfidenceInput) (ctx : BlockerContext)
    → (pushed_blockers input ctx ≡ []) ↔ (
        IfKnown (λ n. n ≡ 0) ctx.incidents
        × IfKnown (λ n. n ≡ 0) ctx.failing
        × IfKnown (λ h. h.unreachable ≡ 0) ctx.health
        × IfKnown (λ p. ctx.coverage_threshold ≤ p) ctx.cov_pct
        × IfKnown (λ n. 0 < n) (active_schedule_count input.schedules))
unfolding pushed_blockers
none_pushed_iff input ctx =
    let (to, from) = both_iff (incident_blocker ctx.incidents) _ (no_incident_iff ctx.incidents) (
      both_iff (failing_blocker ctx.failing) _ (no_failing_iff ctx.failing) (
        both_iff (unreachable_blocker ctx.health) _ (no_unreachable_iff ctx.health) (
          both_iff (coverage_blocker ctx.coverage_threshold ctx.cov_pct) _
            (no_low_coverage_iff ctx.coverage_threshold ctx.cov_pct)
            (no_schedule_iff (active_schedule_count input.schedules))))) in
    (
      λ e. let (a, (b, (c, (x, y)))) = to e in (a, b, c, x, y),
      λ e. from (e.0, (e.1, (e.2, (e.3, e.4)))),
    )

-- `computeConfidence` lists no blocker exactly when nothing that is known is wrong: there is no
-- open critical incident, no failing test, no unreachable service, the coverage is not below the
-- threshold, and there is an active schedule.
pub no_blockers_iff :
    (d : Double) (input : ConfidenceInput) (opts : ConfidenceOptions)
    → ((compute_confidence d input opts).blockers ≡ [])
      ↔ NothingWrong
          (or_else opts.coverage_threshold default_coverage_threshold)
          input
          (coverage_percent d (coverage_fraction d input.coverage))
unfolding compute_confidence
no_blockers_iff d input opts = rw (build_blockers_lem input _) (none_pushed_iff input _)
