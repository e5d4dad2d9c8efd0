-- ===== src/Protocol/Bytes/Numbers.antt =====
-- Big-endian bytes spell the number that they were taken from, and the other way round.
use qoe_test_harness.Prelude.{
  ℕ, zero, suc, ◌+◌, ◌*◌, ◌/◌, ◌%◌, ◌^◌, ◌<◌, ◌≤◌, ◌≡◌, refl, sym, ap, ap₂, ◌∙◌, List, [], ◌∷◌,
  ◌++◌, length, All, arith, length-append,
}
use native.Mathlib.Nat.{zero-add, add-zero, pow-suc}
use mathlib.Core.List.{append-nil, append_assoc}
use qoe_test_harness.Prelude.Int.{ℤ, pos, negsuc}
use qoe_test_harness.Protocol.Bytes.{IsByte, IsI64, IsU64, be, be_value, to_uint64, to_int64}

be_value-append :
    (acc : ℕ) (xs ys : List ℕ) → be_value acc (xs ++ ys) ≡ be_value (be_value acc xs) ys
be_value-append acc [] ys = refl
be_value-append acc (x ∷ xs) ys = be_value-append (acc * 256 + x) xs ys

pub length-be : (k x : ℕ) → length (be k x) ≡ k
length-be zero x = refl
length-be (suc k) x =
    omega (arith, length-append (be k (x / 256)) (x % 256 ∷ []), length-be k (x / 256))

pub All-append {ℓ κ} :
    {A : Type ℓ} (P : A → Type κ) (xs ys : List A) → All P xs → All P ys → All P (xs ++ ys)
All-append P [] ys h k = k
All-append P (x ∷ xs) ys h k = (h.0, All-append P xs ys h.1 k)

pub be-IsByte : (k x : ℕ) → All IsByte (be k x)
be-IsByte zero x = tt
be-IsByte (suc k) x =
    All-append IsByte (be k (x / 256)) (x % 256 ∷ []) (be-IsByte k (x / 256)) (omega arith)

shift : (k n : ℕ) → k + suc n ≡ suc k + n
shift k n = omega arith

quotient : (acc b : ℕ) → b < 256 → (acc * 256 + b) / 256 ≡ acc
quotient acc b h = omega arith

remainder : (acc b : ℕ) → b < 256 → (acc * 256 + b) % 256 ≡ b
remainder acc b h = omega arith

div_lt_pow : (k x : ℕ) → x < 256 ^ suc k → x / 256 < 256 ^ k
div_lt_pow k x h = omega (arith, pow-suc 256 k)

pub be_value-be : (k x : ℕ) → x < 256 ^ k → be_value 0 (be k x) ≡ x
be_value-be zero x h = omega arith
be_value-be (suc k) x h =
    be_value-append 0 (be k (x / 256)) (x % 256 ∷ [])
    ∙ omega (arith, be_value-be k (x / 256) (div_lt_pow k x h))

-- Reading bytes into `acc` and writing the number out again puts them behind those of `acc`.
be-be_value_from :
    (k acc : ℕ) (bs : List ℕ)
    → All IsByte bs
    → be (k + length bs) (be_value acc bs) ≡ be k acc ++ bs
be-be_value_from k acc [] h = rw (add-zero, append-nil)
be-be_value_from k acc (b ∷ bs) (hb, hbs) =
    ap (λ n. be n (be_value (acc * 256 + b) bs)) (shift k (length bs))
    ∙ be-be_value_from (suc k) (acc * 256 + b) bs hbs
    ∙ ap₂ (λ q r. (be k q ++ (r ∷ [])) ++ bs) (quotient acc b hb) (remainder acc b hb)
    ∙ append_assoc (be k acc) (b ∷ []) bs

pub be-be_value : (bs : List ℕ) → All IsByte bs → be (length bs) (be_value 0 bs) ≡ bs
be-be_value bs h =
    ap (λ n. be n (be_value 0 bs)) (sym (zero-add (length bs))) ∙ be-be_value_from 0 0 bs h

one_more :
    (v acc b p q : ℕ) → b < 256 → v < (acc * 256 + b + 1) * p → q ≡ p * 256 → v < (acc + 1) * q
one_more v acc b p q hb hv e = rw e (grind (arith, bound))
  where
    bound : (acc * 256 + b + 1) * p ≤ (acc * 256 + 256) * p
    bound = grind arith

be_value_from-lt :
    (acc : ℕ) (bs : List ℕ) → All IsByte bs → be_value acc bs < (acc + 1) * 256 ^ length bs
be_value_from-lt acc [] h = omega arith
be_value_from-lt acc (b ∷ bs) (hb, hbs) =
    one_more (be_value (acc * 256 + b) bs) acc b (256 ^ length bs) (256 ^ suc (length bs)) hb
      (be_value_from-lt (acc * 256 + b) bs hbs) (pow-suc 256 (length bs))

pub be_value-lt : (bs : List ℕ) → All IsByte bs → be_value 0 bs < 256 ^ length bs
be_value-lt bs h = omega (arith, be_value_from-lt 0 bs h)

pub to_int64-to_uint64 : (z : ℤ) → IsI64 z → to_int64 (to_uint64 z) ≡ z
to_int64-to_uint64 (pos n) h = ground arith
to_int64-to_uint64 (negsuc n) h = ground arith

pub to_uint64-to_int64 : (n : ℕ) → IsU64 n → to_uint64 (to_int64 n) ≡ n
to_uint64-to_int64 n h = ground arith

pub to_uint64-IsU64 : (z : ℤ) → IsU64 (to_uint64 z)
to_uint64-IsU64 (pos n) = omega arith
to_uint64-IsU64 (negsuc n) = omega arith

pub to_int64-IsI64 : (n : ℕ) → IsU64 n → IsI64 (to_int64 n)
to_int64-IsI64 n h = ground arith

pub be_value-byte : (b : ℕ) → be_value 0 (b ∷ []) ≡ b
be_value-byte b = omega arith

-- A timestamp survives the eight bytes that it is sent in.
pub int64_field : (z : ℤ) → IsI64 z → to_int64 (be_value 0 (be 8 (to_uint64 z))) ≡ z
int64_field z h =
    ap to_int64 (be_value-be 8 (to_uint64 z) (to_uint64-IsU64 z)) ∙ to_int64-to_uint64 z h
