-- ===== src/Net/LoadFlow.antt =====
-- What the two commands open beside the clock: core/net's probe connection and its two load flows, as
-- calls on one world. A command ends on an error, with the text that it then prints.
pub mod Steady
use Prim.Native.String.{String, ◌++◌ as ◌#◌}
use qoe_test_harness.Prelude.{ℕ, ◌*◌, ◌%◌, ◌^◌, Option, Result, ok, err}
use qoe_test_harness.Prelude.Calls.{M}
use qoe_test_harness.Net.Seams.{Failure}
use qoe_test_harness.Batch.{RunError, failed, panicked, out_of_rounds}

-- The methods of a load flow that is dialled. `Marked` is what SetMarking gives: for UDPLoad an error
-- and the world, for UDPDownLoad the world only.
pub record LoadFlow (World Marked : Type 0) : Type 0 where
  pub set_marking : ℕ → World → Marked
  pub set_rate_bps : ℕ → World → Option Failure × World
  pub achieved_bps : World → ℕ
  pub stop : World → World
  pub close : World → World

abbrev pub UpFlow : Type 0 → Type 0
UpFlow World = LoadFlow World (Option Failure × World)

abbrev pub DownFlow : Type 0 → Type 0
DownFlow World = LoadFlow World World

-- `dial` is DialUDP; `handshake` and `close` are on the connection that it gives.
pub record Sockets (World : Type 0) : Type 0 where
  pub dial : World → Option Failure × World
  pub handshake : ℕ → World → Option Failure × World
  pub close : World → World
  pub dial_load : World → Result Failure (UpFlow World) × World
  pub dial_down_load : ℕ → World → Result Failure (DownFlow World) × World

-- log.Fatalf with a text before the error.
abbrev pub worded : String → RunError → RunError
worded text (failed f) = failed (text # ": " # f)
worded text (panicked f) = panicked f
worded text out_of_rounds = out_of_rounds

abbrev pub fatal : {World A : Type 0} → String → M RunError World A → M RunError World A
fatal text m w = let (r, w') = m w in (elim r [ ok a ↦ ok a | err e ↦ err (worded text e) ], w')

-- A constructor that may fail.
abbrev pub opened : {World A : Type 0} → (World → Result Failure A × World) → M RunError World A
opened call w = let (r, w') = call w in (elim r [ ok a ↦ ok a | err f ↦ err (failed f) ], w')

-- A call whose error is only logged.
abbrev pub logged :
    {World : Type 0} → (World → Option Failure × World) → M RunError World (Unit {0})
logged call w = let (e, w') = call w in (ok tt, w')

-- `uint64(mbps) * 1_000_000`.
abbrev pub bps_of : ℕ → ℕ
bps_of mbps = mbps * 1_000_000 % 2 ^ 64
