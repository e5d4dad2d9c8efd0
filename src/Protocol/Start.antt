-- ===== src/Protocol/Start.antt =====
-- core/protocol/start.go: the request for a paced downstream flow, and the type of the request that
-- ends one.
pub mod RoundTrip
use qoe_test_harness.Prelude.{
  ℕ, ◌+◌, ◌≡◌, List, [], ◌∷◌, ◌++◌, Result, ok, err, ◌>>=◌, length, drop, ltb, if◌then◌else◌, All,
}
use qoe_test_harness.Protocol.Bytes.{
  IsByte, IsU32, IsU64, be, write, put_uint32, put_uint64, put_byte, uint32, uint64, byte_at,
}
use qoe_test_harness.Protocol.Header.{
  Header, IsHeader, WireError, short, header_size, header_bytes, msg_start, marshal_header,
  unmarshal_header,
}
use qoe_test_harness.Protocol.Handshake.{cookie_size, copy_array}

abbrev pub msg_stop : ℕ
msg_stop = 8

abbrev pub start_body : ℕ
start_body = cookie_size + 8 + 4 + 1

abbrev pub start_size : ℕ
start_size = header_size + start_body

pub record Start : Type 0 where
  pub header : Header
  pub cookie : List ℕ
  pub rate_bps : ℕ
  pub duration_ms : ℕ
  pub marking : ℕ

pub record IsStart (s : Start) : Type 0 where
  pub is_header : IsHeader s.header
  pub cookie_length : length s.cookie ≡ cookie_size
  pub cookie_bytes : All IsByte s.cookie
  pub rate_u64 : IsU64 s.rate_bps
  pub duration_u32 : IsU32 s.duration_ms
  pub marking_byte : IsByte s.marking

abbrev pub sent_start : Start → Start
sent_start s = record s { header = record (s.header) { type = msg_start } }

unfoldable pub marshal_start : Start → List ℕ → Result WireError (ℕ × List ℕ)
marshal_start s dst = if ltb (length dst) start_size then err short else (do
  let h = record (s.header) { type = msg_start }
  (n, d) ← marshal_header h dst
  let d1 = write d header_size s.cookie
  let d2 = put_uint64 d1 (header_size + cookie_size) s.rate_bps
  let d3 = put_uint32 d2 (header_size + cookie_size + 8) s.duration_ms
  ok (start_size, put_byte d3 (header_size + cookie_size + 12) s.marking))

unfoldable pub unmarshal_start : List ℕ → Result WireError Start
unmarshal_start b = do
  h ← unmarshal_header b
  if ltb (length b) start_size
      then err short
      else ok (record {
        header = h;
        cookie = copy_array cookie_size (drop header_size b);
        rate_bps = uint64 b (header_size + cookie_size);
        duration_ms = uint32 b (header_size + cookie_size + 8);
        marking = byte_at b (header_size + cookie_size + 12);
      })

abbrev pub start_bytes : Start → List ℕ
start_bytes s =
    header_bytes s.header
    ++ (s.cookie ++ (be 8 s.rate_bps ++ (be 4 s.duration_ms ++ (s.marking ∷ []))))
