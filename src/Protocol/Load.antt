-- ===== src/Protocol/Load.antt =====
-- core/protocol/load.go: the server's running tally of the bytes received on a load flow.
pub mod RoundTrip
use qoe_test_harness.Prelude.{
  ℕ, ◌+◌, List, [], ◌∷◌, ◌++◌, Result, ok, err, ◌>>=◌, length, ltb, if◌then◌else◌,
}
use qoe_test_harness.Prelude.Int.{ℤ}
use qoe_test_harness.Protocol.Bytes.{IsU64, IsI64, be, put_uint64, uint64, to_uint64, to_int64}
use qoe_test_harness.Protocol.Header.{
  Header, IsHeader, WireError, short, header_size, header_bytes, marshal_header, unmarshal_header,
}

abbrev pub msg_load : ℕ
msg_load = 6

abbrev pub msg_load_stat : ℕ
msg_load_stat = 7

abbrev pub load_stat_body : ℕ
load_stat_body = 8 + 8

abbrev pub load_stat_size : ℕ
load_stat_size = header_size + load_stat_body

pub record LoadStat : Type 0 where
  pub header : Header
  pub bytes_recv : ℕ
  pub t_server_nanos : ℤ

pub record IsLoadStat (s : LoadStat) : Type 0 where
  pub is_header : IsHeader s.header
  pub bytes_u64 : IsU64 s.bytes_recv
  pub t_server_i64 : IsI64 s.t_server_nanos

abbrev pub sent_load_stat : LoadStat → LoadStat
sent_load_stat s = record s { header = record (s.header) { type = msg_load_stat } }

unfoldable pub marshal_load_stat : LoadStat → List ℕ → Result WireError (ℕ × List ℕ)
marshal_load_stat s dst = if ltb (length dst) load_stat_size then err short else (do
  let h = record (s.header) { type = msg_load_stat }
  (n, d) ← marshal_header h dst
  let d1 = put_uint64 d header_size s.bytes_recv
  ok (load_stat_size, put_uint64 d1 (header_size + 8) (to_uint64 s.t_server_nanos)))

unfoldable pub unmarshal_load_stat : List ℕ → Result WireError LoadStat
unmarshal_load_stat b = do
  h ← unmarshal_header b
  if ltb (length b) load_stat_size
      then err short
      else ok (record {
        header = h;
        bytes_recv = uint64 b header_size;
        t_server_nanos = to_int64 (uint64 b (header_size + 8));
      })

abbrev pub load_stat_bytes : LoadStat → List ℕ
load_stat_bytes s =
    header_bytes s.header ++ (be 8 s.bytes_recv ++ be 8 (to_uint64 s.t_server_nanos))
