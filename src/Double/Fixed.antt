-- ===== src/Double/Fixed.antt =====
-- Fixed-point numbers in steps of 1/10000: numbers for which the laws hold.
use native.Mathlib.Nat.{le-div_iff_mul-le, div-mul-le_self, le_trans, zero-div, mul-div_cancel}
use meergate.Base.{ℕ, ◌≡◌, ◌≤◌, ◌<◌, ◌+◌, ◌*◌, ◌/◌, false, ltb, arith}
use meergate.Double.{Double, IsIeee}

abbrev pub fixed : Double
fixed = record {
  F = ℕ;
  of_ℕ = λ n. n * 10000;
  percent = λ n. n * 100;
  add = λ a b. a + b;
  mul = λ a b. a * b / 10000;
  div = λ a b. a * 10000 / b;
  lt = ltb;
  round = λ a. (a + 5000) / 10000;
}

div_le : (a b k : ℕ) → a ≤ b → 0 < k → a / k ≤ b / k
div_le a b k h p = (le-div_iff_mul-le p).1 (le_trans (div-mul-le_self a k) h)

mul_le : (a b c : ℕ) → a ≤ b → a * c / 10000 ≤ b * c / 10000
mul_le a b c h = div_le (a * c) (b * c) 10000 (grind arith) (omega arith)

full : (n : ℕ) → 0 < n → n * 10000 * 10000 / (n * 10000) ≡ 10000
full n h =
    let e : n * 10000 * 10000 ≡ 10000 * (n * 10000) = omega arith in
    rw e (mul-div_cancel 10000 (omega arith))

not_lt : (a b : ℕ) → a ≤ b → ltb b a ≡ false
not_lt a b h = ground arith

le_of_ltb : (a b : ℕ) → ltb b a ≡ false → a ≤ b
le_of_ltb a b h = ground arith

pub fixed-IsIeee : IsIeee fixed
fixed-IsIeee = record {
  le_refl = λ x. ground arith;
  zero_le = λ x. ground arith;
  le_trans = λ x y z p q. ground arith;
  add_mono = λ x y u v p q. ground arith;
  mul_mono = λ x y z h. not_lt _ _ (mul_le x y z (le_of_ltb x y h));
  div_mono = λ m n k h p. not_lt _ _ (div_le _ _ (k * 10000) (omega arith) (omega arith));
  div_self = full;
  div_zero = λ n h. zero-div _;
  zero_add = λ x. omega arith;
  one_mul = λ x. omega arith;
  zero_mul = λ x. omega arith;
  lt_add = λ x y h. ground arith;
  percent_pos = λ n h. ground arith;
  round_mono = λ x y h. omega (arith, le_of_ltb x y h);
  round-of_ℕ = λ n h. omega arith;
}
