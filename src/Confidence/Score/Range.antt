-- ===== src/Confidence/Score/Range.antt =====
-- web/src/lib/confidence.ts: when there is a score, and the range of the percentages.
use meergate.Base.{
  ℕ, ◌≡◌, refl, ap, ◌∙◌, ◌≤◌, ◌<◌, ◌↔◌, true, false, Option, none, some, List, [], ◌∷◌, is_some,
  arith, Bool-cases, Option-cases, inl, inr, All,
}
use meergate.Data.{CoverageReport}
use meergate.Double.{Double, IsIeee}
use meergate.Double.Laws.{round-mul_mono, round-one, round-zero}
use meergate.Confidence.{
  ConfidenceInput, ConfidenceOptions, SignalKey, coverage, failing_tests, service_health, incidents,
  schedules, coverage_fraction, coverage_percent,
}
use meergate.Confidence.Score.{MetricSignal, fraction, signals, available_weight, score_of, weight}
use meergate.Confidence.Blockers.{compute_confidence}

module _ (d : Double) (laws : IsIeee d) where
  weight_pos : (k : SignalKey) → d.lt (d.of_ℕ 0) (weight d k) ≡ true
  weight_pos coverage = laws.percent_pos 30 (omega arith)
  weight_pos failing_tests = laws.percent_pos 30 (omega arith)
  weight_pos service_health = laws.percent_pos 20 (omega arith)
  weight_pos incidents = laws.percent_pos 15 (omega arith)
  weight_pos schedules = laws.percent_pos 5 (omega arith)

  module _ (f : SignalKey → Option d.F) where
    -- A positive sum stays positive.
    available_weight_pos :
        (ss : List (MetricSignal d)) (sum : d.F)
        → d.lt (d.of_ℕ 0) sum ≡ true
        → d.lt (d.of_ℕ 0) (available_weight d f sum ss) ≡ true
    unfolding available_weight
    available_weight_pos [] sum h = h
    available_weight_pos (s ∷ ss) sum h = elim (Bool-cases (is_some (f s.key))) [
      | inl e ↦ rw e (
          available_weight_pos ss (d.add sum (weight d s.key))
            (laws.lt_add sum _ (weight_pos s.key)))
      | inr e ↦ rw e (available_weight_pos ss sum h)
    ]

    -- The sum is 0 exactly when no signal is available.
    available_weight_iff :
        (ss : List (MetricSignal d))
        → (d.lt (d.of_ℕ 0) (available_weight d f (d.of_ℕ 0) ss) ≡ false)
          ↔ All (λ s. f s.key ≡ none) ss
    unfolding available_weight
    available_weight_iff [] = (λ e. tt, λ a. laws.le_refl (d.of_ℕ 0))
    available_weight_iff (s ∷ ss) = elim (Option-cases (f s.key)) [
      | inl e ↦ let ih = available_weight_iff ss in rw e (λ p. (refl, ih.0 p), λ a. ih.1 a.1)
      | inr (x, e) ↦
          let pos =
            available_weight_pos ss (d.add (d.of_ℕ 0) (weight d s.key))
              (laws.lt_add (d.of_ℕ 0) _ (weight_pos s.key)) in
          rw e (λ p. cc, λ a. cc)
    ]

-- The keys in the order of the signals.
abbrev pub keys : List SignalKey
keys = coverage ∷ failing_tests ∷ service_health ∷ incidents ∷ schedules ∷ []

score_of-none_iff :
    (d : Double) (f : SignalKey → Option d.F) (ss : List (MetricSignal d))
    → (score_of d f ss ≡ none) ↔ (d.lt (d.of_ℕ 0) (available_weight d f (d.of_ℕ 0) ss) ≡ false)
unfolding score_of
score_of-none_iff d f ss =
    elim (Bool-cases (d.lt (d.of_ℕ 0) (available_weight d f (d.of_ℕ 0) ss))) [
      | inl e ↦ rw e (λ p. cc, λ p. cc)
      | inr e ↦ rw e (λ p. refl, λ p. refl)
    ]

-- There is no score exactly when no signal is available, and `hasEnoughData` says which it is.
pub score-none_iff :
    (d : Double) (laws : IsIeee d) (input : ConfidenceInput) (opts : ConfidenceOptions)
    → let r = compute_confidence d input opts in
      ((r.score ≡ none) ↔ All (λ k. fraction d input k ≡ none) keys)
      × ((r.has_enough_data ≡ false) ↔ (r.score ≡ none))
unfolding compute_confidence signals
score-none_iff d laws input opts =
    let by_weight = score_of-none_iff d (fraction d input) (signals d input _) in
    let available = available_weight_iff d laws (fraction d input) (signals d input _) in
    (
      (λ e. available.0 (by_weight.0 e), λ a. by_weight.1 (available.1 a)),
      (by_weight.1, by_weight.0),
    )

module _ (d : Double) (laws : IsIeee d) where
  percent_at : (n k : ℕ) → ℕ
  percent_at n k = d.round (d.mul (d.div (d.of_ℕ n) (d.of_ℕ k)) (d.of_ℕ 100))

  percent_at_self : (k : ℕ) → 0 < k → percent_at k k ≡ 100
  unfolding percent_at
  percent_at_self k pos = rw (percent_at, laws.div_self k pos) (round-one d laws)

  percent_at-zero : (k : ℕ) → 0 < k → percent_at 0 k ≡ 0
  unfolding percent_at
  percent_at-zero k pos = rw (percent_at, laws.div_zero k pos) (round-zero d laws (d.of_ℕ 100))

  percent_at_mono : (m n k : ℕ) → m ≤ n → 0 < k → percent_at m k ≤ percent_at n k
  unfolding percent_at
  percent_at_mono m n k h pos = round-mul_mono d laws _ _ (d.of_ℕ 100) (laws.div_mono m n k h pos)

  percent_of :
      (r : CoverageReport)
      → 0 < r.total_operations
      → coverage_percent d (coverage_fraction d (some r))
        ≡ some (percent_at r.covered_operations r.total_operations)
  unfolding coverage_percent coverage_fraction percent_at
  percent_of r pos = ground arith

  -- The coverage percentage of two reports on the same number of operations, not 0, of which the
  -- first covers no more than the second and the second no more than there are: both have one, the
  -- first has no more than the second, and neither is above 100.
  pub coverage_percent_mono :
      (r s : CoverageReport)
      → 0 < s.total_operations
      → r.total_operations ≡ s.total_operations
      → r.covered_operations ≤ s.covered_operations
      → s.covered_operations ≤ s.total_operations
      → (p q : ℕ) × (coverage_percent d (coverage_fraction d (some r)) ≡ some p)
        × (coverage_percent d (coverage_fraction d (some s)) ≡ some q)
        × (p ≤ q)
        × (q ≤ 100)
  coverage_percent_mono r s pos same le top =
      let k = s.total_operations in
      (
        percent_at r.covered_operations r.total_operations,
        percent_at s.covered_operations k,
        percent_of r (omega arith),
        percent_of s pos,
        rw same (percent_at_mono r.covered_operations s.covered_operations k le pos),
        omega (arith, percent_at_self k pos, percent_at_mono s.covered_operations k k top pos),
      )

  -- All operations covered is 100 per cent, and none is 0, where there are operations.
  pub coverage_percent_ends :
      (r : CoverageReport)
      → 0 < r.total_operations
      → (coverage_percent d
            (coverage_fraction d (some (record r { covered_operations = r.total_operations })))
          ≡ some 100)
        × (coverage_percent d (coverage_fraction d (some (record r { covered_operations = 0 })))
            ≡ some 0)
  coverage_percent_ends r pos = (
    percent_of _ pos ∙ ap some (percent_at_self _ pos),
    percent_of _ pos ∙ ap some (percent_at-zero _ pos),
  )
