-- ===== src/Double/Laws.antt =====
-- What the arithmetic laws say of a percentage `Math.round(n / d * 100)`.
use meergate.Base.{◌≡◌, ◌≤◌, arith, ap, ◌∙◌}
use meergate.Double.{Double, IsIeee, Le}

module _ (d : Double) (laws : IsIeee d) where
  pub round-one : d.round (d.mul (d.of_ℕ 1) (d.of_ℕ 100)) ≡ 100
  round-one = ap d.round (laws.one_mul (d.of_ℕ 100)) ∙ laws.round-of_ℕ 100 (omega arith)

  pub round-zero : (x : d.F) → d.round (d.mul (d.of_ℕ 0) x) ≡ 0
  round-zero x = ap d.round (laws.zero_mul x) ∙ laws.round-of_ℕ 0 (omega arith)

  pub round-mul_mono : (x y z : d.F) → Le d x y → d.round (d.mul x z) ≤ d.round (d.mul y z)
  round-mul_mono x y z h = laws.round_mono _ _ (laws.mul_mono x y z h)
