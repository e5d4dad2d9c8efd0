-- ===== src/Protocol/Packet/RoundTrip.antt =====
-- Probes and echoes: what is written is read back.
use qoe_test_harness.Prelude.{
  ℕ, ◌≤◌, ◌≡◌, refl, ap, ◌∙◌, List, [], ◌∷◌, ◌++◌, ok, length, drop, arith, not_short, length-drop,
  drop-drop,
}
use qoe_test_harness.Protocol.Bytes.{be, to_uint64}
use qoe_test_harness.Protocol.Bytes.Numbers.{int64_field, be_value-byte}
use qoe_test_harness.Protocol.Bytes.Writes.{writes_from}
use qoe_test_harness.Protocol.Header.{header_size, header_bytes}
use qoe_test_harness.Protocol.Header.RoundTrip.{marshal_header-eq, read_header}
use qoe_test_harness.Protocol.Packet.{
  Probe, IsProbe, sent_probe, probe_size, probe_bytes, marshal_probe, unmarshal_probe, Echo, IsEcho,
  sent_echo, echo_size, echo_bytes, marshal_echo, unmarshal_echo,
}

pub marshal_probe-eq :
    (p : Probe) (dst : List ℕ)
    → probe_size ≤ length dst
    → marshal_probe p dst ≡ ok (probe_size, probe_bytes (sent_probe p) ++ drop probe_size dst)
unfolding marshal_probe
marshal_probe-eq p dst n = rw (not_short (length dst) probe_size n) (
    rw (marshal_header-eq (sent_probe p).header dst (omega arith)) (
      ap (λ d. ok (probe_size, d))
        (writes_from (be 8 (to_uint64 p.t_send_nanos) ∷ (p.tos_intended ∷ []) ∷ [])
            (header_bytes (sent_probe p).header) (drop header_size dst)
            (omega (arith, length-drop header_size dst))
          ∙ ap (λ r. probe_bytes (sent_probe p) ++ r) (drop-drop header_size 9 dst))))

pub read_probe :
    (p : Probe) (rest : List ℕ) → IsProbe p → unmarshal_probe (probe_bytes p ++ rest) ≡ ok p
unfolding unmarshal_probe
read_probe p rest v = rw (read_header p.header _ v.is_header) (
    rw (not_short (length (probe_bytes p ++ rest)) probe_size (omega arith)) (λ i. ok (record {
      header = p.header;
      t_send_nanos = int64_field p.t_send_nanos v.t_send_i64 i;
      tos_intended = be_value-byte p.tos_intended i;
    })))

sent_probe-IsProbe : (p : Probe) → IsProbe p → IsProbe (sent_probe p)
sent_probe-IsProbe p v = record {
  is_header = omega (arith, v.is_header.session_u64, v.is_header.seq_u64);
  t_send_i64 = v.t_send_i64;
  tos_byte = v.tos_byte;
}

-- A probe that is sent in a long enough buffer is read back with the type of a probe, and the
-- buffer keeps its length and what lies behind the packet.
pub unmarshal-marshal_probe :
    (p : Probe) (dst : List ℕ)
    → IsProbe p
    → probe_size ≤ length dst
    → (d : List ℕ) × (marshal_probe p dst ≡ ok (probe_size, d))
      × (unmarshal_probe d ≡ ok (sent_probe p))
      × (length d ≡ length dst)
      × (drop probe_size d ≡ drop probe_size dst)
unmarshal-marshal_probe p dst v n = (
  probe_bytes (sent_probe p) ++ drop probe_size dst,
  marshal_probe-eq p dst n,
  read_probe (sent_probe p) (drop probe_size dst) (sent_probe-IsProbe p v),
  omega (arith, length-drop probe_size dst),
  refl,
)

pub marshal_echo-eq :
    (e : Echo) (dst : List ℕ)
    → echo_size ≤ length dst
    → marshal_echo e dst ≡ ok (echo_size, echo_bytes (sent_echo e) ++ drop echo_size dst)
unfolding marshal_echo
marshal_echo-eq e dst n = rw (not_short (length dst) echo_size n) (
    rw (marshal_header-eq (sent_echo e).header dst (omega arith)) (
      ap (λ d. ok (echo_size, d))
        (writes_from
            (be 8 (to_uint64 e.t_send_nanos)
              ∷ be 8 (to_uint64 e.t_recv_server_nanos)
              ∷ (e.tos_observed ∷ [])
              ∷ (e.ce ∷ [])
              ∷ [])
            (header_bytes (sent_echo e).header) (drop header_size dst)
            (omega (arith, length-drop header_size dst))
          ∙ ap (λ r. echo_bytes (sent_echo e) ++ r) (drop-drop header_size 18 dst))))

pub read_echo : (e : Echo) (rest : List ℕ) → IsEcho e → unmarshal_echo (echo_bytes e ++ rest) ≡ ok e
unfolding unmarshal_echo
read_echo e rest v = rw (read_header e.header _ v.is_header) (
    rw (not_short (length (echo_bytes e ++ rest)) echo_size (omega arith)) (λ i. ok (record {
      header = e.header;
      t_send_nanos = int64_field e.t_send_nanos v.t_send_i64 i;
      t_recv_server_nanos = int64_field e.t_recv_server_nanos v.t_recv_i64 i;
      tos_observed = be_value-byte e.tos_observed i;
      ce = be_value-byte e.ce i;
    })))

sent_echo-IsEcho : (e : Echo) → IsEcho e → IsEcho (sent_echo e)
sent_echo-IsEcho e v = record {
  is_header = omega (arith, v.is_header.session_u64, v.is_header.seq_u64);
  t_send_i64 = v.t_send_i64;
  t_recv_i64 = v.t_recv_i64;
  tos_byte = v.tos_byte;
  ce_byte = v.ce_byte;
}

-- An echo that is sent in a long enough buffer is read back with the type of an echo, and the
-- buffer keeps its length and what lies behind the packet.
pub unmarshal-marshal_echo :
    (e : Echo) (dst : List ℕ)
    → IsEcho e
    → echo_size ≤ length dst
    → (d : List ℕ) × (marshal_echo e dst ≡ ok (echo_size, d))
      × (unmarshal_echo d ≡ ok (sent_echo e))
      × (length d ≡ length dst)
      × (drop echo_size d ≡ drop echo_size dst)
unmarshal-marshal_echo e dst v n = (
  echo_bytes (sent_echo e) ++ drop echo_size dst,
  marshal_echo-eq e dst n,
  read_echo (sent_echo e) (drop echo_size dst) (sent_echo-IsEcho e v),
  omega (arith, length-drop echo_size dst),
  refl,
)
