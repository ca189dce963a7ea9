-- ===== src/Double.antt =====
-- The floating-point numbers that the scores are computed with: the finite doubles from 0 on, and
-- the laws of IEEE 754 arithmetic that the theorems use. The laws are those of a rounding that is
-- monotone and exact where the result is a double: no sum or product is assumed to be exact.
pub mod Fixed
pub mod Laws
use meergate.Base.{ℕ, ◌≡◌, ◌≤◌, ◌<◌, Bool, true, false}

pub record Double : Type 1 where
  pub F : Type 0
  -- An integer below 2^53, and the literal n / 100.
  pub of_ℕ : ℕ → F
  pub percent : ℕ → F
  pub add : F → F → F
  pub mul : F → F → F
  pub div : F → F → F
  pub lt : F → F → Bool
  -- `Math.round`.
  pub round : F → ℕ

-- `x ≤ y`, there being no NaN.
abbrev pub Le : (d : Double) → d.F → d.F → Type 0
Le d x y = d.lt y x ≡ false

pub record IsIeee (d : Double) : Type 0 where
  pub le_refl : (x : d.F) → Le d x x
  pub zero_le : (x : d.F) → Le d (d.of_ℕ 0) x
  pub le_trans : (x y z : d.F) → Le d x y → Le d y z → Le d x z
  pub add_mono : (x y u v : d.F) → Le d x y → Le d u v → Le d (d.add x u) (d.add y v)
  pub mul_mono : (x y z : d.F) → Le d x y → Le d (d.mul x z) (d.mul y z)
  pub div_mono :
      (m n k : ℕ) → m ≤ n → 0 < k → Le d (d.div (d.of_ℕ m) (d.of_ℕ k)) (d.div (d.of_ℕ n) (d.of_ℕ k))
  pub div_self : (n : ℕ) → 0 < n → d.div (d.of_ℕ n) (d.of_ℕ n) ≡ d.of_ℕ 1
  pub div_zero : (n : ℕ) → 0 < n → d.div (d.of_ℕ 0) (d.of_ℕ n) ≡ d.of_ℕ 0
  pub zero_add : (x : d.F) → d.add (d.of_ℕ 0) x ≡ x
  pub one_mul : (x : d.F) → d.mul (d.of_ℕ 1) x ≡ x
  pub zero_mul : (x : d.F) → d.mul (d.of_ℕ 0) x ≡ d.of_ℕ 0
  pub lt_add : (x y : d.F) → d.lt (d.of_ℕ 0) y ≡ true → d.lt (d.of_ℕ 0) (d.add x y) ≡ true
  pub percent_pos : (n : ℕ) → 0 < n → d.lt (d.of_ℕ 0) (d.percent n) ≡ true
  pub round_mono : (x y : d.F) → Le d x y → d.round x ≤ d.round y
  pub round-of_ℕ : (n : ℕ) → n ≤ 9007199254740992 → d.round (d.of_ℕ n) ≡ n
