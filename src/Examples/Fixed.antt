-- ===== src/Examples/Fixed.antt =====
-- A float64 stand-in for the examples: thousandths, never negative, subtraction stopping at 0.
use native.Mathlib.Nat.{div-zero, le-div_iff_mul-le, div-mul-le_self, mul-div_cancel_left}
use qoe_test_harness.Prelude.{
  zero, suc, ℕ, ◌+◌, ◌-◌, ◌*◌, ◌/◌, ◌^◌, ◌≤◌, arith, ltb, leb, ◌==◌, leb→le, le→leb,
}
use qoe_test_harness.Prelude.Int.{pos_part}
use qoe_test_harness.Prelude.Floats.{Float64, Ordered, Rounded}

abbrev pub fixed : Float64
fixed = record {
  F = ℕ;
  add = λ a b. a + b;
  sub = λ a b. a - b;
  mul = λ a b. a * b / 1000;
  div = λ a b. a * 1000 / b;
  le = leb;
  lt = ltb;
  eq = ◌==◌;
  of_ℕ = λ n. n * 1000;
  of_ℤ = λ z. pos_part z * 1000;
  decimal = λ n k. n * 1000 / 10 ^ k;
  truncate = λ a. a / 1000;
}

pub fixed-Ordered : Ordered fixed
fixed-Ordered = record {
  le_trans = λ a b c p q. ground arith;
  lt_def = λ a b. ground arith;
  eq_def = λ a b. ground arith;
  le_total = λ a b p q r. ground arith;
}

pub part-le : (a b : ℕ) → a ≤ 1000 → a * b / 1000 ≤ b
part-le a b h = omega (arith, le)
  where
    le : a * b ≤ 1000 * b
    le = grind arith

quotient_mono : (a b k : ℕ) → a ≤ b → a / k ≤ b / k
quotient_mono a b zero h = rw (div-zero a, div-zero b) (omega arith)
quotient_mono a b (suc k) h =
    (le-div_iff_mul-le (omega arith)).1 (omega (arith, div-mul-le_self a (suc k)))

pub fixed-Rounded : Rounded fixed
fixed-Rounded = record {
  add-num = λ a b p. (ground arith, ground arith);
  mul-num = λ a b p. (ground arith, ground arith);
  add_mono = λ a b c p q r. ground arith;
  add_nonneg = λ a b p q. ground arith;
  mul_nonneg = λ a b p q r. ground arith;
  mul-le_right = λ a b p q r. le→leb (a * b / 1000) b (part-le a b (leb→le a 1000 p));
  sub_nonneg = λ a b p q. ground arith;
  decimal_mono = λ m n k h.
      le→leb (m * 1000 / 10 ^ k) (n * 1000 / 10 ^ k)
        (quotient_mono (m * 1000) (n * 1000) (10 ^ k) (omega arith));
  of_ℕ_mono = λ m n h b. ground arith;
  div_mono = λ m n k h p a b.
      le→leb _ _ (quotient_mono (m * 1000 * 1000) (n * 1000 * 1000) (k * 1000) (omega arith));
  div_self = λ n p b. mul-div_cancel_left 1000 (omega arith);
}
