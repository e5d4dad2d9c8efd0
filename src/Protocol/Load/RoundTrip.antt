-- ===== src/Protocol/Load/RoundTrip.antt =====
-- A load stat that is written is read back.
use qoe_test_harness.Prelude.{
  ℕ, ◌≤◌, ◌≡◌, refl, ap, ◌∙◌, List, [], ◌∷◌, ◌++◌, ok, length, drop, arith, not_short, length-drop,
  drop-drop,
}
use qoe_test_harness.Protocol.Bytes.{be, to_uint64}
use qoe_test_harness.Protocol.Bytes.Numbers.{int64_field, be_value-be}
use qoe_test_harness.Protocol.Bytes.Writes.{writes_from}
use qoe_test_harness.Protocol.Header.{header_size, header_bytes}
use qoe_test_harness.Protocol.Header.RoundTrip.{marshal_header-eq, read_header}
use qoe_test_harness.Protocol.Load.{
  LoadStat, IsLoadStat, sent_load_stat, load_stat_size, load_stat_bytes, marshal_load_stat,
  unmarshal_load_stat,
}

pub marshal_load_stat-eq :
    (s : LoadStat) (dst : List ℕ)
    → load_stat_size ≤ length dst
    → marshal_load_stat s dst
      ≡ ok (load_stat_size, load_stat_bytes (sent_load_stat s) ++ drop load_stat_size dst)
unfolding marshal_load_stat
marshal_load_stat-eq s dst n = rw (not_short (length dst) load_stat_size n) (
    rw (marshal_header-eq (sent_load_stat s).header dst (omega arith)) (
      ap (λ d. ok (load_stat_size, d))
        (writes_from (be 8 s.bytes_recv ∷ be 8 (to_uint64 s.t_server_nanos) ∷ [])
            (header_bytes (sent_load_stat s).header) (drop header_size dst)
            (omega (arith, length-drop header_size dst))
          ∙ ap (λ r. load_stat_bytes (sent_load_stat s) ++ r) (drop-drop header_size 16 dst))))

pub read_load_stat :
    (s : LoadStat) (rest : List ℕ)
    → IsLoadStat s
    → unmarshal_load_stat (load_stat_bytes s ++ rest) ≡ ok s
unfolding unmarshal_load_stat
read_load_stat s rest v = rw (read_header s.header _ v.is_header) (
    rw (not_short (length (load_stat_bytes s ++ rest)) load_stat_size (omega arith)) (λ i.
      ok (record {
        header = s.header;
        bytes_recv = be_value-be 8 s.bytes_recv v.bytes_u64 i;
        t_server_nanos = int64_field s.t_server_nanos v.t_server_i64 i;
      })))

sent_load_stat-IsLoadStat : (s : LoadStat) → IsLoadStat s → IsLoadStat (sent_load_stat s)
sent_load_stat-IsLoadStat s v = record {
  is_header = omega (arith, v.is_header.session_u64, v.is_header.seq_u64);
  bytes_u64 = v.bytes_u64;
  t_server_i64 = v.t_server_i64;
}

-- A load stat that is sent in a long enough buffer is read back with the type of a load stat, and
-- the buffer keeps its length and what lies behind the packet.
pub unmarshal-marshal_load_stat :
    (s : LoadStat) (dst : List ℕ)
    → IsLoadStat s
    → load_stat_size ≤ length dst
    → (d : List ℕ) × (marshal_load_stat s dst ≡ ok (load_stat_size, d))
      × (unmarshal_load_stat d ≡ ok (sent_load_stat s))
      × (length d ≡ length dst)
      × (drop load_stat_size d ≡ drop load_stat_size dst)
unmarshal-marshal_load_stat s dst v n = (
  load_stat_bytes (sent_load_stat s) ++ drop load_stat_size dst,
  marshal_load_stat-eq s dst n,
  read_load_stat (sent_load_stat s) (drop load_stat_size dst) (sent_load_stat-IsLoadStat s v),
  omega (arith, length-drop load_stat_size dst),
  refl,
)
