-- ===== src/Protocol/Header/Parse.antt =====
-- Exactly which packets `unmarshal_header` accepts.
use qoe_test_harness.Prelude.{
  ℕ, ◌≤◌, ◌≡◌, sym, ap, ap₂, subst, ◌∙◌, ◌↔◌, List, [], ◌∷◌, ◌++◌, ok, err, length, drop, take, ltb,
  ◌==◌, not, if◌then◌else◌, arith, All, take-append-drop,
}
use qoe_test_harness.Protocol.Bytes.{IsByte, be, slice, uint16, uint64, byte_at}
use qoe_test_harness.Protocol.Bytes.Fields.{be-field, byte_field, slice-add, field-lt}
use qoe_test_harness.Protocol.Header.{
  Header, IsHeader, short, bad_magic, bad_version, magic, version, header_size, header_bytes,
  unmarshal_header,
}
use qoe_test_harness.Protocol.Header.RoundTrip.{read_header}

abbrev fields : List ℕ → Header
fields b = record { type = byte_at b 3; session = uint64 b 4; seq = uint64 b 12 }

-- What a successful parse has checked.
record Checked (b : List ℕ) (h : Header) : Type 0 where
  long : header_size ≤ length b
  right_magic : uint16 b 0 ≡ magic
  right_version : byte_at b 2 ≡ version
  read : h ≡ fields b

checks :
    (n m v : ℕ) (h g : Header)
    → (if ltb n header_size
        then err short
        else if not (m == magic)
        then err bad_magic
        else if not (v == version)
        then err bad_version
        else ok g)
      ≡ ok h
    → (header_size ≤ n) × (m ≡ magic) × (v ≡ version) × (h ≡ g)
checks n m v h g e = ground arith

unmarshal_header-Checked : (b : List ℕ) (h : Header) → unmarshal_header b ≡ ok h → Checked b h
unfolding unmarshal_header
unmarshal_header-Checked b h e =
    let (l, m, v, r) = checks (length b) (uint16 b 0) (byte_at b 2) h (fields b) e in
    record { long = l; right_magic = m; right_version = v; read = r }

-- The front of a buffer that holds a header is the header's bytes, field by field.
header_bytes-fields :
    (b : List ℕ) (h : Header) → All IsByte b → Checked b h → header_bytes h ≡ take header_size b
header_bytes-fields b h bytes c =
    ap header_bytes c.read
    ∙ sym (
        slice-add b 0 2 18
        ∙ ap₂ (λ m r. m ++ r) magic_part
            (slice-add b 2 1 17
              ∙ ap₂ (λ m r. m ++ r) version_part
                  (slice-add b 3 1 16
                    ∙ ap₂ (λ m r. m ++ r) (sym (byte_field b 3 (omega (arith, c.long))))
                        (slice-add b 4 8 8
                          ∙ ap₂ (λ m r. m ++ r) (sym (be-field b 4 8 (omega (arith, c.long)) bytes))
                              (sym (be-field b 12 8 (omega (arith, c.long)) bytes))))))
  where
    magic_part : slice b 0 2 ≡ be 2 magic
    magic_part = sym (be-field b 0 2 (omega (arith, c.long)) bytes) ∙ ap (be 2) c.right_magic

    version_part : slice b 2 1 ≡ version ∷ []
    version_part = sym (byte_field b 2 (omega (arith, c.long))) ∙ ap (λ v. v ∷ []) c.right_version

fields-IsHeader : (b : List ℕ) → All IsByte b → header_size ≤ length b → IsHeader (fields b)
fields-IsHeader b bytes n = record {
  type_byte = field-lt b 3 1 (omega arith) bytes;
  session_u64 = field-lt b 4 8 (omega arith) bytes;
  seq_u64 = field-lt b 12 8 (omega arith) bytes;
}

pub unmarshal_header-IsHeader :
    (b : List ℕ) (h : Header) → All IsByte b → unmarshal_header b ≡ ok h → IsHeader h
unmarshal_header-IsHeader b h bytes e =
    let c = unmarshal_header-Checked b h e in
    subst IsHeader (sym c.read) (fields-IsHeader b bytes c.long)

pub header_of_front :
    (b : List ℕ) (h : Header)
    → IsHeader h
    → take header_size b ≡ header_bytes h
    → unmarshal_header b ≡ ok h
header_of_front b h v e =
    ap unmarshal_header (sym (take-append-drop header_size b) ∙ ap (λ f. f ++ drop header_size b) e)
    ∙ read_header h (drop header_size b) v

pub front_of_header :
    (b : List ℕ) (h : Header)
    → All IsByte b
    → unmarshal_header b ≡ ok h
    → take header_size b ≡ header_bytes h
front_of_header b h bytes e = sym (header_bytes-fields b h bytes (unmarshal_header-Checked b h e))

-- `unmarshal_header` accepts a packet exactly when it starts with the 20 bytes of a header with
-- fields in range, and returns that header.
pub unmarshal_header-accepts :
    (b : List ℕ) (h : Header)
    → All IsByte b
    → (unmarshal_header b ≡ ok h) ↔ (IsHeader h × (take header_size b ≡ header_bytes h))
unmarshal_header-accepts b h bytes = (
  (λ e. (unmarshal_header-IsHeader b h bytes e, front_of_header b h bytes e)),
  (λ p. header_of_front b h p.0 p.1),
)
