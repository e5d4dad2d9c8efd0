-- ===== src/Protocol/Bytes/Fields.antt =====
-- A field read from a buffer, and written out again, is the slice that it was read from.
use native.Mathlib.Nat.{zero-add, suc-add}
use qoe_test_harness.Prelude.{
  ℕ, zero, suc, ◌+◌, ◌*◌, ◌^◌, ◌≤◌, ◌<◌, ◌≡◌, sym, ap, subst, ◌∙◌, List, [], ◌∷◌, ◌++◌, length,
  take, drop, All, arith, length-take, length-drop, drop-drop, ltb, false, drop-drop, take-nil,
}
use qoe_test_harness.Protocol.Bytes.{
  IsByte, IsI64, be, be_value, slice, uint64, byte_at, to_uint64, to_int64,
}
use qoe_test_harness.Protocol.Bytes.Numbers.{
  be-be_value, be_value-lt, to_uint64-to_int64, to_int64-IsI64,
}

module _ {ℓ κ} {A : Type ℓ} (P : A → Type κ) where
  pub All-drop : (n : ℕ) (xs : List A) → All P xs → All P (drop n xs)
  All-drop zero xs h = h
  All-drop (suc n) [] h = h
  All-drop (suc n) (x ∷ xs) h = All-drop n xs h.1

  pub All-take : (n : ℕ) (xs : List A) → All P xs → All P (take n xs)
  All-take zero xs h = tt
  All-take (suc n) [] h = h
  All-take (suc n) (x ∷ xs) h = (h.0, All-take n xs h.1)

pub take-add {ℓ} :
    {A : Type ℓ} (m n : ℕ) (xs : List A) → take (m + n) xs ≡ take m xs ++ take n (drop m xs)
take-add zero n xs = rw zero-add
take-add (suc m) n [] = rw suc-add (sym (take-nil n))
take-add (suc m) n (x ∷ xs) = rw suc-add (ap (λ t. x ∷ t) (take-add m n xs))

-- A slice in two parts.
pub slice-add : (b : List ℕ) (o m n : ℕ) → slice b o (m + n) ≡ slice b o m ++ slice b (o + m) n
slice-add b o m n =
    take-add m n (drop o b) ∙ ap (λ r. take m (drop o b) ++ take n r) (drop-drop o m b)

module _ (b : List ℕ) (o k : ℕ) (fits : o + k ≤ length b) where
  pub length-slice : length (slice b o k) ≡ k
  length-slice = omega (arith, length-take k (drop o b), length-drop o b)

  module _ (bytes : All IsByte b) where
    slice-IsByte : All IsByte (slice b o k)
    slice-IsByte = All-take IsByte k (drop o b) (All-drop IsByte o b bytes)

    pub be-field : be k (be_value 0 (slice b o k)) ≡ slice b o k
    be-field =
        ap (λ n. be n (be_value 0 (slice b o k))) (sym length-slice)
        ∙ be-be_value (slice b o k) slice-IsByte

    pub field-lt : be_value 0 (slice b o k) < 256 ^ k
    field-lt =
        subst (λ n. be_value 0 (slice b o k) < 256 ^ n) length-slice
          (be_value-lt (slice b o k) slice-IsByte)

pub byte_field : (b : List ℕ) (o : ℕ) → o + 1 ≤ length b → byte_at b o ∷ [] ≡ slice b o 1
byte_field b o fits = single (slice b o 1) (length-slice b o 1 fits)
  where
    single : (xs : List ℕ) → length xs ≡ 1 → be_value 0 xs ∷ [] ≡ xs
    single [] e = absurd (omega arith)
    single (x ∷ []) e = ap (λ n. n ∷ []) (value x)
      where
        value : (n : ℕ) → 0 * 256 + n ≡ n
        value n = omega arith
    single (x ∷ y ∷ xs) e = absurd (omega arith)

pub length_enough : (n k : ℕ) → ltb n k ≡ false → k ≤ n
length_enough n k h = ground arith

module _ (b : List ℕ) (o : ℕ) (fits : o + 8 ≤ length b) (bytes : All IsByte b) where
  -- The eight bytes that a timestamp was read from are those that it is sent in.
  pub int64_written : be 8 (to_uint64 (to_int64 (uint64 b o))) ≡ slice b o 8
  int64_written =
      ap (be 8) (to_uint64-to_int64 (uint64 b o) (field-lt b o 8 fits bytes))
      ∙ be-field b o 8 fits bytes

  pub int64_read-IsI64 : IsI64 (to_int64 (uint64 b o))
  int64_read-IsI64 = to_int64-IsI64 (uint64 b o) (field-lt b o 8 fits bytes)
