-- ===== src/Protocol/Header/RoundTrip.antt =====
-- What `marshal_header` writes, and that `unmarshal_header` reads it back.
use qoe_test_harness.Prelude.{
  ℕ, ◌≤◌, ◌≡◌, ap, List, [], ◌∷◌, ◌++◌, ok, length, drop, arith, not_short,
}
use qoe_test_harness.Protocol.Bytes.{be}
use qoe_test_harness.Protocol.Bytes.Numbers.{be_value-be, be_value-byte}
use qoe_test_harness.Protocol.Bytes.Writes.{writes-eq}
use qoe_test_harness.Protocol.Header.{
  Header, IsHeader, magic, version, header_size, header_bytes, marshal_header, unmarshal_header,
}

-- The five stores of a header, one behind the other.
header_parts : Header → List (List ℕ)
header_parts h = be 2 magic ∷ (version ∷ []) ∷ (h.type ∷ []) ∷ be 8 h.session ∷ be 8 h.seq ∷ []

pub marshal_header-eq :
    (h : Header) (dst : List ℕ)
    → header_size ≤ length dst
    → marshal_header h dst ≡ ok (header_size, header_bytes h ++ drop header_size dst)
unfolding marshal_header header_parts
marshal_header-eq h dst n =
    rw (not_short (length dst) header_size n)
      (ap (λ d. ok (header_size, d)) (writes-eq (header_parts h) dst n))

pub read_header :
    (h : Header) (rest : List ℕ) → IsHeader h → unmarshal_header (header_bytes h ++ rest) ≡ ok h
unfolding unmarshal_header
read_header h rest v =
    rw (not_short (length (header_bytes h ++ rest)) header_size (omega arith)) (λ i. ok (record {
      type = be_value-byte h.type i;
      session = be_value-be 8 h.session v.session_u64 i;
      seq = be_value-be 8 h.seq v.seq_u64 i;
    }))
