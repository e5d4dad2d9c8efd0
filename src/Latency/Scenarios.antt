-- ===== src/Latency/Scenarios.antt =====
-- cli/cmd/qoe-latency/main.go: main after the flags, with the probe of Latency. A flag is not
-- negative; `fixed n x` is the text of fmt's verb %.nf. time.Sleep is the clock's.
use Prim.Native.String.{String, ◌++◌ as ◌#◌}
use qoe_test_harness.Prelude.{ℕ, ◌*◌, Bool, List, [], ◌∷◌, ◌++◌, if◌then◌else◌}
use qoe_test_harness.Prelude.Floats.{Float64}
use qoe_test_harness.Prelude.Calls.{M, ◌>>=◌, ◌>>◌, return}
use qoe_test_harness.Net.Conn.{not_ect, ll_mark}
use qoe_test_harness.Net.Seams.{Seams}
use qoe_test_harness.Net.LoadFlow.{LoadFlow, Sockets, fatal, opened, logged, bps_of}
use qoe_test_harness.Batch.{RunError, attempt, act, ask}
use qoe_test_harness.Latency.{Scenario, probe}

-- The flags of qoe-latency.
pub record Flags : Type 0 where
  pub server : String
  pub probes : ℕ
  pub down_mbps : ℕ
  pub up_mbps : ℕ
  pub settle_ms : ℕ
  pub ll_first : Bool

module _ (fl : Float64) (seams : Seams) (sockets : Sockets seams.World) where
  open fl use {F, div, of_ℕ, decimal}
  open seams use {World, sleep}

  module _ (sorted : List F → List F) (fixed : ℕ → F → String) (rounds : ℕ) (flags : Flags) where
    -- From SetRateBps to the end of a scenario, the same in downScen and in upScen.
    unfoldable pub loaded_scenario :
        {Marked : Type 0}
        → String
        → String
        → ℕ
        → LoadFlow World Marked
        → M RunError World (Scenario fl)
    loaded_scenario label name mbps flow = do
      fatal label (attempt fl seams (flow.set_rate_bps (bps_of mbps)))
      act fl seams (sleep (flags.settle_ms * 1_000_000))
      bps ← ask fl seams flow.achieved_bps
      let ach = div (of_ℕ bps) (decimal 1_000_000 0)
      s ← probe fl seams sorted rounds (name # " " # fixed 0 ach # "M") flags.probes
      act fl seams flow.stop
      act fl seams flow.close
      act fl seams (sleep 700_000_000)
      return s

    unfoldable pub down_scenario : String → ℕ → M RunError World (Scenario fl)
    unfolding loaded_scenario
    down_scenario name marking = do
      d ← fatal "dial down load" (opened (sockets.dial_down_load 4))
      act fl seams (d.set_marking marking)
      loaded_scenario "down load" name flags.down_mbps d

    unfoldable pub up_scenario : String → ℕ → M RunError World (Scenario fl)
    unfolding loaded_scenario
    up_scenario name marking = do
      u ← fatal "dial up load" (opened sockets.dial_load)
      fatal "up mark" (attempt fl seams (u.set_marking marking))
      loaded_scenario "up load" name flags.up_mbps u

    -- Two scenarios, the one after the other.
    abbrev pub in_turn :
        M RunError World (Scenario fl)
        → M RunError World (Scenario fl)
        → M RunError World (List (Scenario fl))
    in_turn first second = do a ← first; b ← second; return (a ∷ b ∷ [])

    unfoldable pub loaded_scenarios : M RunError World (List (Scenario fl))
    unfolding down_scenario up_scenario
    loaded_scenarios =
        if flags.ll_first
        then (do
          downs ←
              in_turn (down_scenario "DOWN/LL-load" ll_mark) (down_scenario "DOWN/cl-load" not_ect)
          ups ← in_turn (up_scenario "UP/LL-load" ll_mark) (up_scenario "UP/cl-load" not_ect)
          return (downs ++ ups))
        else (do
          downs ←
              in_turn (down_scenario "DOWN/cl-load" not_ect) (down_scenario "DOWN/LL-load" ll_mark)
          ups ← in_turn (up_scenario "UP/cl-load" not_ect) (up_scenario "UP/LL-load" ll_mark)
          return (downs ++ ups))

    -- main up to the printing.
    unfoldable pub measure : M RunError World (List (Scenario fl))
    unfolding loaded_scenarios
    measure = do
      fatal "dial probe socket" (attempt fl seams sockets.dial)
      logged (sockets.handshake 1)
      idle ← probe fl seams sorted rounds "idle" flags.probes
      loaded ← loaded_scenarios
      return (idle ∷ loaded)
