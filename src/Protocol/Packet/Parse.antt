-- ===== src/Protocol/Packet/Parse.antt =====
-- Exactly which packets `unmarshal_probe` and `unmarshal_echo` accept.
use qoe_test_harness.Prelude.{
  ℕ, ◌+◌, ◌≤◌, ◌≡◌, sym, ap, ap₂, subst, ◌∙◌, ◌↔◌, List, ◌++◌, ok, length, take, drop, ltb, arith,
  All, take-append-drop, guarded-ok,
}
use qoe_test_harness.Protocol.Bytes.{IsByte, uint64, byte_at, to_int64}
use qoe_test_harness.Protocol.Bytes.Fields.{
  int64_written, byte_field, slice-add, field-lt, length_enough, int64_read-IsI64,
}
use qoe_test_harness.Protocol.Header.{Header, short, header_size, unmarshal_header}
use qoe_test_harness.Protocol.Header.Parse.{unmarshal_header-IsHeader, front_of_header}
use qoe_test_harness.Protocol.Packet.{
  Probe, IsProbe, probe_size, probe_bytes, unmarshal_probe, Echo, IsEcho, echo_size, echo_bytes,
  unmarshal_echo,
}
use qoe_test_harness.Protocol.Packet.RoundTrip.{read_probe, read_echo}

abbrev probe_fields : List ℕ → Header → Probe
probe_fields b h = record {
  header = h;
  t_send_nanos = to_int64 (uint64 b header_size);
  tos_intended = byte_at b (header_size + 8);
}

module _ (b : List ℕ) (bytes : All IsByte b) where
  probe_fields-bytes :
      (h : Header)
      → unmarshal_header b ≡ ok h
      → probe_size ≤ length b
      → IsProbe (probe_fields b h) × (take probe_size b ≡ probe_bytes (probe_fields b h))
  probe_fields-bytes h e n = (
    record {
      is_header = unmarshal_header-IsHeader b h bytes e;
      t_send_i64 = int64_read-IsI64 b 20 (omega arith) bytes;
      tos_byte = field-lt b 28 1 n bytes;
    },
    slice-add b 0 20 9
        ∙ ap₂ (λ m r. m ++ r) (front_of_header b h bytes e)
            (slice-add b 20 8 1
              ∙ ap₂ (λ m r. m ++ r) (sym (int64_written b 20 (omega arith) bytes))
                  (sym (byte_field b 28 n))),
  )

  -- `unmarshal_probe` accepts a packet exactly when it starts with the bytes of a probe with fields
  -- in range, and returns that probe.
  pub unmarshal_probe-accepts :
      (p : Probe) → (unmarshal_probe b ≡ ok p) ↔ (IsProbe p × (take probe_size b ≡ probe_bytes p))
  unfolding unmarshal_probe
  unmarshal_probe-accepts p = (parsed, written)
    where
      parsed : unmarshal_probe b ≡ ok p → IsProbe p × (take probe_size b ≡ probe_bytes p)
      parsed e =
          let (h, eh, long, ep) =
            guarded-ok (unmarshal_header b) (ltb (length b) probe_size) short (probe_fields b) e in
          subst (λ q. IsProbe q × (take probe_size b ≡ probe_bytes q)) (sym ep)
            (probe_fields-bytes h eh (length_enough (length b) probe_size long))

      written : IsProbe p × (take probe_size b ≡ probe_bytes p) → unmarshal_probe b ≡ ok p
      written (v, e) =
          ap unmarshal_probe
            (sym (take-append-drop probe_size b) ∙ ap (λ f. f ++ drop probe_size b) e)
          ∙ read_probe p (drop probe_size b) v

abbrev echo_fields : List ℕ → Header → Echo
echo_fields b h = record {
  header = h;
  t_send_nanos = to_int64 (uint64 b header_size);
  t_recv_server_nanos = to_int64 (uint64 b (header_size + 8));
  tos_observed = byte_at b (header_size + 16);
  ce = byte_at b (header_size + 17);
}

module _ (b : List ℕ) (bytes : All IsByte b) where
  echo_fields-IsEcho :
      (h : Header) → unmarshal_header b ≡ ok h → echo_size ≤ length b → IsEcho (echo_fields b h)
  echo_fields-IsEcho h e n = record {
    is_header = unmarshal_header-IsHeader b h bytes e;
    t_send_i64 = int64_read-IsI64 b 20 (omega arith) bytes;
    t_recv_i64 = int64_read-IsI64 b 28 (omega arith) bytes;
    tos_byte = field-lt b 36 1 (omega arith) bytes;
    ce_byte = field-lt b 37 1 n bytes;
  }

  echo_fields-bytes :
      (h : Header)
      → unmarshal_header b ≡ ok h
      → echo_size ≤ length b
      → take echo_size b ≡ echo_bytes (echo_fields b h)
  echo_fields-bytes h e n =
      slice-add b 0 20 18
      ∙ ap₂ (λ m r. m ++ r) (front_of_header b h bytes e)
          (slice-add b 20 8 10
            ∙ ap₂ (λ m r. m ++ r) (sym (int64_written b 20 (omega arith) bytes))
                (slice-add b 28 8 2
                  ∙ ap₂ (λ m r. m ++ r) (sym (int64_written b 28 (omega arith) bytes))
                      (slice-add b 36 1 1
                        ∙ ap₂ (λ m r. m ++ r) (sym (byte_field b 36 (omega arith)))
                            (sym (byte_field b 37 n)))))

  -- `unmarshal_echo` accepts a packet exactly when it starts with the bytes of an echo with fields
  -- in range, and returns that echo.
  pub unmarshal_echo-accepts :
      (e : Echo) → (unmarshal_echo b ≡ ok e) ↔ (IsEcho e × (take echo_size b ≡ echo_bytes e))
  unfolding unmarshal_echo
  unmarshal_echo-accepts e = (parsed, written)
    where
      parsed : unmarshal_echo b ≡ ok e → IsEcho e × (take echo_size b ≡ echo_bytes e)
      parsed r =
          let (h, eh, long, ep) =
            guarded-ok (unmarshal_header b) (ltb (length b) echo_size) short (echo_fields b) r in
          let n = length_enough (length b) echo_size long in
          subst (λ q. IsEcho q × (take echo_size b ≡ echo_bytes q)) (sym ep)
            (echo_fields-IsEcho h eh n, echo_fields-bytes h eh n)

      written : IsEcho e × (take echo_size b ≡ echo_bytes e) → unmarshal_echo b ≡ ok e
      written (v, w) =
          ap unmarshal_echo (sym (take-append-drop echo_size b) ∙ ap (λ f. f ++ drop echo_size b) w)
          ∙ read_echo e (drop echo_size b) v
