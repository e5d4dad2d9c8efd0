-- ===== src/Net/Seams.antt =====
-- The seams between a run and its surroundings: core/clock's Clock and core/net's PacketConn and
-- LoadController. The three act on one world, whose state each call returns as it is afterwards, on
-- an error too.
use Prim.Native.String.{String}
use qoe_test_harness.Prelude.{ℕ, Option}
use qoe_test_harness.Net.Conn.{Probe, Echo}

-- An error, by its text.
abbrev pub Failure : Type 0
Failure = String

-- What RecvEcho returns: an echo, ErrNoEcho, or another error.
pub data Received : Type 0 where
  echo : Echo → Received
  no_more : Received
  broken : Failure → Received

pub record Seams : Type 1 where
  pub World : Type 0
  pub now : World → ℕ
  pub sleep : ℕ → World → World
  -- `none` is a nil error.
  pub send_probe : Probe → World → Option Failure × World
  pub recv_echo : World → Received × World
  pub set_rate_bps : ℕ → World → Option Failure × World
  pub achieved_bps : World → ℕ
  pub stop : World → World
