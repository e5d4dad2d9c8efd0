-- ===== src/Protocol/Packet.antt =====
-- core/protocol/packet.go: the probe that a client sends and the echo that the server answers with.
pub mod RoundTrip
pub mod Parse
use qoe_test_harness.Prelude.{
  ℕ, ◌+◌, List, [], ◌∷◌, ◌++◌, Result, ok, err, ◌>>=◌, length, ltb, if◌then◌else◌,
}
use qoe_test_harness.Prelude.Int.{ℤ}
use qoe_test_harness.Protocol.Bytes.{
  IsByte, IsI64, be, put_uint64, put_byte, uint64, byte_at, to_uint64, to_int64,
}
use qoe_test_harness.Protocol.Header.{
  Header, IsHeader, WireError, short, header_size, header_bytes, msg_probe, msg_echo,
  marshal_header, unmarshal_header,
}

abbrev pub probe_body : ℕ
probe_body = 8 + 1

abbrev pub echo_body : ℕ
echo_body = 8 + 8 + 2

abbrev pub probe_size : ℕ
probe_size = header_size + probe_body

abbrev pub echo_size : ℕ
echo_size = header_size + echo_body

pub record Probe : Type 0 where
  pub header : Header
  pub t_send_nanos : ℤ
  pub tos_intended : ℕ

pub record IsProbe (p : Probe) : Type 0 where
  pub is_header : IsHeader p.header
  pub t_send_i64 : IsI64 p.t_send_nanos
  pub tos_byte : IsByte p.tos_intended

-- The probe as it is on the wire: `Marshal` forces the type.
abbrev pub sent_probe : Probe → Probe
sent_probe p = record p { header = record (p.header) { type = msg_probe } }

unfoldable pub marshal_probe : Probe → List ℕ → Result WireError (ℕ × List ℕ)
marshal_probe p dst = if ltb (length dst) probe_size then err short else (do
  let h = record (p.header) { type = msg_probe }
  (n, d) ← marshal_header h dst
  let d1 = put_uint64 d header_size (to_uint64 p.t_send_nanos)
  ok (probe_size, put_byte d1 (header_size + 8) p.tos_intended))

unfoldable pub unmarshal_probe : List ℕ → Result WireError Probe
unmarshal_probe b = do
  h ← unmarshal_header b
  if ltb (length b) probe_size
      then err short
      else ok (record {
        header = h;
        t_send_nanos = to_int64 (uint64 b header_size);
        tos_intended = byte_at b (header_size + 8);
      })

abbrev pub probe_bytes : Probe → List ℕ
probe_bytes p = header_bytes p.header ++ (be 8 (to_uint64 p.t_send_nanos) ++ (p.tos_intended ∷ []))

pub record Echo : Type 0 where
  pub header : Header
  pub t_send_nanos : ℤ
  pub t_recv_server_nanos : ℤ
  pub tos_observed : ℕ
  pub ce : ℕ

pub record IsEcho (e : Echo) : Type 0 where
  pub is_header : IsHeader e.header
  pub t_send_i64 : IsI64 e.t_send_nanos
  pub t_recv_i64 : IsI64 e.t_recv_server_nanos
  pub tos_byte : IsByte e.tos_observed
  pub ce_byte : IsByte e.ce

abbrev pub sent_echo : Echo → Echo
sent_echo e = record e { header = record (e.header) { type = msg_echo } }

unfoldable pub marshal_echo : Echo → List ℕ → Result WireError (ℕ × List ℕ)
marshal_echo e dst = if ltb (length dst) echo_size then err short else (do
  let h = record (e.header) { type = msg_echo }
  (n, d) ← marshal_header h dst
  let d1 = put_uint64 d header_size (to_uint64 e.t_send_nanos)
  let d2 = put_uint64 d1 (header_size + 8) (to_uint64 e.t_recv_server_nanos)
  let d3 = put_byte d2 (header_size + 16) e.tos_observed
  ok (echo_size, put_byte d3 (header_size + 17) e.ce))

unfoldable pub unmarshal_echo : List ℕ → Result WireError Echo
unmarshal_echo b = do
  h ← unmarshal_header b
  if ltb (length b) echo_size
      then err short
      else ok (record {
        header = h;
        t_send_nanos = to_int64 (uint64 b header_size);
        t_recv_server_nanos = to_int64 (uint64 b (header_size + 8));
        tos_observed = byte_at b (header_size + 16);
        ce = byte_at b (header_size + 17);
      })

abbrev pub echo_bytes : Echo → List ℕ
echo_bytes e =
    header_bytes e.header
    ++ (be 8 (to_uint64 e.t_send_nanos)
        ++ (be 8 (to_uint64 e.t_recv_server_nanos) ++ (e.tos_observed ∷ e.ce ∷ [])))
