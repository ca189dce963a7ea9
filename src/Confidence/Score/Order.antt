-- ===== src/Confidence/Score/Order.antt =====
-- web/src/lib/confidence.ts, `computeConfidence`: how the score depends on the signals.
use meergate.Base.{
  ℕ, ◌≡◌, refl, ◌≤◌, Bool, Option, none, some, List, [], ◌∷◌, is_some, arith, if◌then◌else◌,
}
use meergate.Double.{Double, IsIeee, Le}
use meergate.Double.Laws.{round-mul_mono}
use meergate.Confidence.{
  ConfidenceInput, ConfidenceOptions, SignalKey, ConfidenceStatus, ready, watch, risky, blocked,
  unknown, status_from_score,
}
use meergate.Confidence.Score.{
  MetricSignal, fraction, signals, available_weight, accumulate, score_of, clamp_score, add_signal,
}
use meergate.Confidence.Blockers.{compute_confidence}

module _ (d : Double) where
  -- The same availability, and where there is a value it is no smaller.
  abbrev pub NotWorse : Option d.F → Option d.F → Type 0
  NotWorse none none = Unit
  NotWorse (some x) (some y) = Le d x y
  NotWorse _ _ = ⊥

module _ (d : Double) (laws : IsIeee d) where
  is_some-NotWorse : (x y : Option d.F) → NotWorse d x y → is_some x ≡ is_some y
  is_some-NotWorse none none h = refl
  is_some-NotWorse (some x) (some y) h = refl
  is_some-NotWorse none (some y) h = elim h [ ]
  is_some-NotWorse (some x) none h = elim h [ ]

  mul_left_mono : (w x y : d.F) → Le d x y → Le d (d.mul x w) (d.mul y w)
  mul_left_mono w x y h = laws.mul_mono x y w h

  add_signal_mono :
      (acc acc' : d.F) (x y : Option d.F) (w : d.F)
      → Le d acc acc'
      → NotWorse d x y
      → Le d (add_signal d acc x w) (add_signal d acc' y w)
  add_signal_mono acc acc' none none w a h = a
  add_signal_mono acc acc' (some x) (some y) w a h =
      laws.add_mono acc acc' _ _ a (laws.mul_mono x y w h)
  add_signal_mono acc acc' none (some y) w a h = elim h [ ]
  add_signal_mono acc acc' (some x) none w a h = elim h [ ]

  module _ (f g : SignalKey → Option d.F) (h : (k : SignalKey) → NotWorse d (f k) (g k)) where
    available_weight_same :
        (ss : List (MetricSignal d)) (sum : d.F)
        → available_weight d f sum ss ≡ available_weight d g sum ss
    unfolding available_weight
    available_weight_same [] sum = refl
    available_weight_same (s ∷ ss) sum =
        rw (is_some-NotWorse (f s.key) (g s.key) (h s.key)) (available_weight_same ss _)

    accumulate_mono :
        (total : d.F) (ss : List (MetricSignal d)) (acc acc' : d.F)
        → Le d acc acc'
        → Le d (accumulate d f total acc ss) (accumulate d g total acc' ss)
    unfolding accumulate
    accumulate_mono total [] acc acc' a = a
    accumulate_mono total (s ∷ ss) acc acc' a =
        accumulate_mono total ss _ _ (add_signal_mono acc acc' (f s.key) (g s.key) _ a (h s.key))

    scores_mono :
        (ss : List (MetricSignal d)) (total : d.F) (p q : Bool)
        → p ≡ q
        → (m n : ℕ)
        → (if p
            then some (clamp_score d (d.mul (accumulate d f total (d.of_ℕ 0) ss) (d.of_ℕ 100)))
            else none)
          ≡ some m
        → (if q
            then some (clamp_score d (d.mul (accumulate d g total (d.of_ℕ 0) ss) (d.of_ℕ 100)))
            else none)
          ≡ some n
        → m ≤ n
    unfolding clamp_score
    scores_mono ss total p q e m n a b =
        let acc = accumulate_mono total ss (d.of_ℕ 0) (d.of_ℕ 0) (laws.le_refl (d.of_ℕ 0)) in
        ground (arith, round-mul_mono d laws _ _ (d.of_ℕ 100) acc)

    score_of_mono :
        (ss : List (MetricSignal d)) (m n : ℕ)
        → score_of d f ss ≡ some m
        → score_of d g ss ≡ some n
        → m ≤ n
    unfolding score_of
    score_of_mono ss m n p q =
        scores_mono ss _ _ _ refl m n p (rw (← available_weight_same ss (d.of_ℕ 0)) at q)

-- The score reads of the signals only their keys.
same_signals :
    (d : Double) (f : SignalKey → Option d.F) (a b : ConfidenceInput) (threshold : ℕ) {n : Option ℕ}
    → score_of d f (signals d b threshold) ≡ n
    → score_of d f (signals d a threshold) ≡ n
unfolding score_of signals available_weight accumulate
same_signals d f a b threshold p = p

-- How good a status is, `unknown` apart.
abbrev pub status_rank : ConfidenceStatus → ℕ
status_rank unknown = 0
status_rank blocked = 1
status_rank risky = 2
status_rank watch = 3
status_rank ready = 4

status_from_score_mono :
    (m n : ℕ)
    → m ≤ n
    → status_rank (status_from_score (some m)) ≤ status_rank (status_from_score (some n))
unfolding status_from_score
status_from_score_mono m n h = ground arith

-- Where the same signals are available in two inputs, and each has at least as good a fraction in
-- the second, the second has at least the score of the first, and no worse a status.
pub score_mono :
    (d : Double) (laws : IsIeee d) (a b : ConfidenceInput) (opts : ConfidenceOptions)
    → ((k : SignalKey) → NotWorse d (fraction d a k) (fraction d b k))
    → (m n : ℕ) → (compute_confidence d a opts).score ≡ some m
    → (compute_confidence d b opts).score ≡ some n
    → (m ≤ n)
      × (status_rank (compute_confidence d a opts).status
          ≤ status_rank (compute_confidence d b opts).status)
unfolding compute_confidence
score_mono d laws a b opts h m n p q =
    let le =
      score_of_mono d laws (fraction d a) (fraction d b) h (signals d a _) m n p
        (same_signals d (fraction d b) a b _ q) in
    (le, rw (p, q) (status_from_score_mono m n le))
