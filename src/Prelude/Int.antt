-- ===== src/Prelude/Int.antt =====
-- Signed integers over the native numbers, under the library's names (its ℤ stands on the unary ℕ).
use qoe_test_harness.Prelude.{
  ℕ, Bool, true, false, not, ◌&&◌, ◌-◌, if◌then◌else◌, ltb, leb, ◌+◌, ◌^◌,
}

-- `negsuc n` is -(n + 1).
pub data ℤ : Type 0 where
  pos : ℕ → ℤ
  negsuc : ℕ → ℤ

abbrev pub pos_part : ℤ → ℕ
pos_part (pos n) = n
pos_part (negsuc n) = 0

-- `a < b`.
abbrev pub lt_int : ℤ → ℤ → Bool
lt_int (pos a) (pos b) = ltb a b
lt_int (pos a) (negsuc b) = false
lt_int (negsuc a) (pos b) = true
lt_int (negsuc a) (negsuc b) = ltb b a

-- `a == b`.
abbrev pub eq_int : ℤ → ℤ → Bool
eq_int a b = not (lt_int a b) && not (lt_int b a)

-- a - b, as an integer.
abbrev pub sub_ℕ : ℕ → ℕ → ℤ
sub_ℕ a b = if leb b a then pos (a - b) else negsuc (b - a - 1)

-- `t.Sub(u).Nanoseconds()`: the difference, cut off at the ends of an int64.
abbrev pub elapsed : ℕ → ℤ → ℤ
elapsed t (pos u) =
    if leb u t
    then (if ltb (t - u) (2 ^ 63) then pos (t - u) else pos (2 ^ 63 - 1))
    else if ltb (u - t - 1) (2 ^ 63)
    then negsuc (u - t - 1)
    else negsuc (2 ^ 63 - 1)
elapsed t (negsuc u) = if ltb (t + u + 1) (2 ^ 63) then pos (t + u + 1) else pos (2 ^ 63 - 1)
