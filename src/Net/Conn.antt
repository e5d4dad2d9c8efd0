-- ===== src/Net/Conn.antt =====
-- core/net/conn.go: probes, echoes and markings as the client sees them. Times are nanoseconds;
-- those that an echo carries come from the wire, and may be negative.
use qoe_test_harness.Prelude.{ℕ, ◌+◌, ◌*◌, Bool}
use qoe_test_harness.Prelude.Int.{ℤ}

abbrev pub not_ect : ℕ
not_ect = 0

abbrev pub ect1 : ℕ
ect1 = 1

abbrev pub dscp_nqb : ℕ
dscp_nqb = 45 * 4

-- The bits of the two are apart, so that the sum is the bitwise or.
abbrev pub ll_mark : ℕ
ll_mark = dscp_nqb + ect1

pub record Probe : Type 0 where
  pub seq : ℕ
  pub sent_at : ℕ
  pub marking : ℕ

pub record Echo : Type 0 where
  pub seq : ℕ
  pub sent_at : ℤ
  pub recv_at : ℕ
  pub server_recv_at : ℤ
  pub tos_observed : ℕ
  pub ce_seen : Bool
  pub down_tos_observed : ℕ
  pub down_ce : Bool
