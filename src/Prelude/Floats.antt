-- ===== src/Prelude/Floats.antt =====
-- Go's float64, as a parameter: the operations that the program uses, and the facts of IEEE 754
-- arithmetic that a theorem relies on. Each fact holds of all float64 values, NaN and the
-- infinities included. `le a a` says that `a` is a number, that is not NaN.
use qoe_test_harness.Prelude.{ℕ, ◌^◌, ◌<◌, ◌≤◌, ◌≡◌, Bool, true, false, not, ◌&&◌}
use qoe_test_harness.Prelude.Int.{ℤ}

pub record Float64 : Type 1 where
  pub F : Type 0
  pub add : F → F → F
  pub sub : F → F → F
  pub mul : F → F → F
  pub div : F → F → F
  pub le : F → F → Bool
  pub lt : F → F → Bool
  pub eq : F → F → Bool
  -- float64(n) of a uint64 or of an int that is not negative; float64(z) of an int64.
  pub of_ℕ : ℕ → F
  pub of_ℤ : ℤ → F
  -- The constant n / 10 ^ k: `decimal 75 1` is 7.5.
  pub decimal : ℕ → ℕ → F
  -- int(x) and uint64(x) of a value in range that is not negative: rounds towards 0.
  pub truncate : F → ℕ

module _ (fl : Float64) where
  open fl use {F, add, sub, mul, div, le, lt, eq, of_ℕ, decimal}

  abbrev pub zero_f : F
  zero_f = decimal 0 0

  abbrev pub one_f : F
  one_f = decimal 1 0

  -- The comparisons.
  pub record Ordered : Type 0 where
    pub le_trans : (a b c : F) → le a b ≡ true → le b c ≡ true → le a c ≡ true
    pub lt_def : (a b : F) → lt a b ≡ (le a b && not (le b a))
    pub eq_def : (a b : F) → eq a b ≡ (le a b && le b a)
    pub le_total : (a b : F) → le a a ≡ true → le b b ≡ true → le a b ≡ false → le b a ≡ true

  -- Rounding is monotone, and NaN is passed on.
  pub record Rounded : Type 0 where
    pub add-num : (a b : F) → le (add a b) (add a b) ≡ true → (le a a ≡ true) × (le b b ≡ true)
    pub mul-num : (a b : F) → le (mul a b) (mul a b) ≡ true → (le a a ≡ true) × (le b b ≡ true)
    pub add_mono :
        (a b c : F)
        → le b c ≡ true
        → le (add a b) (add a b) ≡ true
        → le (add a c) (add a c) ≡ true
        → le (add a b) (add a c) ≡ true
    pub add_nonneg :
        (a b : F) → le zero_f b ≡ true → le (add a b) (add a b) ≡ true → le a (add a b) ≡ true
    pub mul_nonneg :
        (a b : F)
        → le zero_f a ≡ true
        → le zero_f b ≡ true
        → le (mul a b) (mul a b) ≡ true
        → le zero_f (mul a b) ≡ true
    pub mul-le_right :
        (a b : F)
        → le a one_f ≡ true
        → le zero_f b ≡ true
        → le (mul a b) (mul a b) ≡ true
        → le (mul a b) b ≡ true
    pub sub_nonneg :
        (a b : F) → le a b ≡ true → le (sub b a) (sub b a) ≡ true → le zero_f (sub b a) ≡ true
    -- Constants and counts are numbers and keep their order.
    pub decimal_mono : (m n k : ℕ) → m ≤ n → le (decimal m k) (decimal n k) ≡ true
    pub of_ℕ_mono : (m n : ℕ) → m ≤ n → n < 2 ^ 64 → le (of_ℕ m) (of_ℕ n) ≡ true
    pub div_mono :
        (m n k : ℕ)
        → m ≤ n
        → 0 < k
        → n < 2 ^ 64
        → k < 2 ^ 64
        → le (div (of_ℕ m) (of_ℕ k)) (div (of_ℕ n) (of_ℕ k)) ≡ true
    pub div_self : (n : ℕ) → 0 < n → n < 2 ^ 64 → div (of_ℕ n) (of_ℕ n) ≡ one_f
