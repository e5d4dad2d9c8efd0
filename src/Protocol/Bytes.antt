-- ===== src/Protocol/Bytes.antt =====
-- Go's encoding/binary big-endian accessors and `copy`, as core/protocol uses them: a buffer is a
-- list of bytes, and a store returns the buffer as it is afterwards. Every caller tests the length
-- of the buffer first, so no access is out of range.
pub mod Numbers
pub mod Writes
pub mod Fields
use qoe_test_harness.Prelude.{
  ℕ, zero, suc, ◌+◌, ◌-◌, ◌*◌, ◌/◌, ◌%◌, ◌^◌, ◌<◌, ◌≤◌, List, [], ◌∷◌, ◌++◌, length, take, drop,
  ltb, if◌then◌else◌,
}
use qoe_test_harness.Prelude.Int.{ℤ, pos, negsuc}

abbrev pub IsByte : ℕ → Type 0
IsByte b = b < 256

abbrev pub IsU32 : ℕ → Type 0
IsU32 n = n < 2 ^ 32

abbrev pub IsU64 : ℕ → Type 0
IsU64 n = n < 2 ^ 64

-- -2^63 ≤ z < 2^63.
abbrev pub IsI64 : ℤ → Type 0
IsI64 (pos n) = n < 2 ^ 63
IsI64 (negsuc n) = n < 2 ^ 63

-- The `k` low bytes of `x`, highest first.
abbrev pub be : ℕ → ℕ → List ℕ
be zero x = []
be (suc k) x = be k (x / 256) ++ (x % 256 ∷ [])

-- The number that big-endian bytes spell, after those read into `acc`.
abbrev pub be_value : ℕ → List ℕ → ℕ
be_value acc [] = acc
be_value acc (b ∷ bs) = be_value (acc * 256 + b) bs

-- `copy(dst, bs)`: as many elements as both have.
abbrev pub overlay : List ℕ → List ℕ → List ℕ
overlay xs [] = xs
overlay [] (b ∷ bs) = []
overlay (x ∷ xs) (b ∷ bs) = b ∷ overlay xs bs

-- `copy(dst[o:], bs)`; also `dst[o] = b` and `PutUint…(dst[o:], x)`.
abbrev pub write : List ℕ → ℕ → List ℕ → List ℕ
write xs zero bs = overlay xs bs
write [] (suc o) bs = []
write (x ∷ xs) (suc o) bs = x ∷ write xs o bs

-- `b[o : o+n]`.
abbrev pub slice : List ℕ → ℕ → ℕ → List ℕ
slice b o n = take n (drop o b)

abbrev pub put_uint16 : List ℕ → ℕ → ℕ → List ℕ
put_uint16 dst o x = write dst o (be 2 x)

abbrev pub put_uint32 : List ℕ → ℕ → ℕ → List ℕ
put_uint32 dst o x = write dst o (be 4 x)

abbrev pub put_uint64 : List ℕ → ℕ → ℕ → List ℕ
put_uint64 dst o x = write dst o (be 8 x)

abbrev pub put_byte : List ℕ → ℕ → ℕ → List ℕ
put_byte dst o x = write dst o (x ∷ [])

abbrev pub uint16 : List ℕ → ℕ → ℕ
uint16 b o = be_value 0 (slice b o 2)

abbrev pub uint32 : List ℕ → ℕ → ℕ
uint32 b o = be_value 0 (slice b o 4)

abbrev pub uint64 : List ℕ → ℕ → ℕ
uint64 b o = be_value 0 (slice b o 8)

-- `b[o]`.
abbrev pub byte_at : List ℕ → ℕ → ℕ
byte_at b o = be_value 0 (slice b o 1)

-- The conversions `uint64(z)` and `int64(n)`, two's complement.
abbrev pub to_uint64 : ℤ → ℕ
to_uint64 (pos n) = n % 2 ^ 64
to_uint64 (negsuc n) = 2 ^ 64 - 1 - n % 2 ^ 64

abbrev pub to_int64 : ℕ → ℤ
to_int64 n = if ltb n (2 ^ 63) then pos n else negsuc (2 ^ 64 - 1 - n)
