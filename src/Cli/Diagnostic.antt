-- ===== src/Cli/Diagnostic.antt =====
-- cli/cmd/qoe-cli/main.go: the default mode of main, a probe-level diagnostic. A flag is not negative;
-- `number` is the text of fmt's verb %d and `fixed n x` that of %.nf. time.Sleep is the clock's.
use Prim.Native.String.{String}
use qoe_test_harness.Prelude.{
  ℕ, ◌&&◌, Option, none, some, List, [], ◌∷◌, Result, length, ltb, if◌then◌else◌,
}
use qoe_test_harness.Prelude.Texts.{concat}
use qoe_test_harness.Prelude.Floats.{Float64}
use qoe_test_harness.Prelude.Calls.{M, ◌>>=◌, ◌>>◌, return}
use qoe_test_harness.Compute.Histogram.{new_default_histogram, quantile}
use qoe_test_harness.Compute.Stats.{base_rtt}
use qoe_test_harness.Net.Conn.{not_ect, ll_mark}
use qoe_test_harness.Net.Seams.{Failure, Seams}
use qoe_test_harness.Net.LoadFlow.{
  LoadFlow, Sockets, UpFlow, DownFlow, fatal, opened, logged, bps_of,
}
use qoe_test_harness.Batch.{
  RunError, Probed, attempt, act, ask, checked, batch_probe, observe_deltas,
}

-- The flags of the diagnostic.
pub record Flags : Type 0 where
  pub server : String
  pub probes : ℕ
  pub load_mbps : ℕ
  pub down_mbps : ℕ

module _ (fl : Float64) where
  open fl use {F, mul, div, of_ℕ, decimal}

  -- What the diagnostic prints of one class of probes.
  pub record Class : Type 0 where
    pub n : ℕ
    pub survival : F
    pub p50 : F
    pub p99 : F

  -- What it prints; of a flow that ran, its rate.
  pub record Diagnosis : Type 0 where
    pub base_rtt : F
    pub up_achieved : Option ℕ
    pub down_achieved : Option ℕ
    pub ll : Class
    pub classic : Class

  module _ (seams : Seams) where
    open seams use {World, sleep}

    -- A flow that runs at `mbps`, if this is more than 0. `label` and `start` begin the errors' texts.
    unfoldable pub start_load :
        {Marked : Type 0}
        → String
        → String
        → (World → Result Failure (LoadFlow World Marked) × World)
        → ℕ
        → M RunError World (Option (LoadFlow World Marked))
    start_load label start dial mbps =
        if ltb 0 mbps
        then (do
          flow ← fatal label (opened dial)
          fatal start (attempt fl seams (flow.set_rate_bps (bps_of mbps)))
          return (some flow))
        else return none

    -- The time that the queue gets to build, if a load runs.
    abbrev pub settle : Option (UpFlow World) → Option (DownFlow World) → World → World
    settle none none w = w
    settle none (some d) w = sleep 500_000_000 w
    settle (some l) down w = sleep 500_000_000 w

    -- The rate of a flow that runs, and its end.
    unfoldable pub stop_load :
        {Marked : Type 0} → Option (LoadFlow World Marked) → M RunError World (Option ℕ)
    stop_load none = return none
    stop_load (some flow) = do
      bps ← ask fl seams flow.achieved_bps
      act fl seams flow.stop
      return (some bps)

    abbrev pub close_load : {Marked : Type 0} → Option (LoadFlow World Marked) → World → World
    close_load none w = w
    close_load (some flow) w = flow.close w

    -- The histogram of a class's working deltas, and its two quantiles.
    unfoldable pub class_of : F → Probed fl → M RunError World Class
    class_of base p = do
      h ← checked fl seams (observe_deltas fl (new_default_histogram fl) base p.rtts)
      p50 ← checked fl seams (quantile fl h (decimal 5 1))
      p99 ← checked fl seams (quantile fl h (decimal 99 2))
      return (record { n = length p.rtts; survival = p.survival; p50 = p50; p99 = p99 })

    module _ (sockets : Sockets World) where
      -- Both loads.
      unfoldable pub start_loads :
          Flags → M RunError World (Option (UpFlow World) × Option (DownFlow World))
      unfolding start_load
      start_loads flags = do
        load ← start_load "dial load" "start load" sockets.dial_load flags.load_mbps
        down ←
            start_load "dial downstream load" "start downstream load" (sockets.dial_down_load 2)
              flags.down_mbps
        act fl seams (settle load down)
        return (load, down)

      -- main up to the printing, and then its deferred calls.
      unfoldable pub diagnose : (List F → List F) → ℕ → Flags → M RunError World Diagnosis
      unfolding start_loads stop_load class_of
      diagnose sorted rounds flags = do
        fatal "dial" (attempt fl seams sockets.dial)
        logged (sockets.handshake 1)
        base ← fatal "baseline" (batch_probe fl seams rounds not_ect 100)
        base_ms ← checked fl seams (base_rtt fl sorted base.rtts (decimal 5 2))
        (load, down) ← start_loads flags
        ll ← fatal "LL probes" (batch_probe fl seams rounds ll_mark flags.probes)
        classic ← fatal "classic probes" (batch_probe fl seams rounds not_ect flags.probes)
        up_bps ← stop_load load
        down_bps ← stop_load down
        ll_class ← class_of base_ms ll
        classic_class ← class_of base_ms classic
        act fl seams (close_load down)
        act fl seams (close_load load)
        act fl seams sockets.close
        return (record {
          base_rtt = base_ms;
          up_achieved = up_bps;
          down_achieved = down_bps;
          ll = ll_class;
          classic = classic_class;
        })

  module _ (number : ℕ → String) (fixed : ℕ → F → String) where
    unfoldable pub mode_of : Flags → String
    mode_of flags =
        if ltb 0 flags.load_mbps && ltb 0 flags.down_mbps
        then concat (
            "under "
            ∷ number flags.load_mbps
            ∷ " up / "
            ∷ number flags.down_mbps
            ∷ " down Mbps load"
            ∷ [])
        else if ltb 0 flags.load_mbps
        then concat ("under " ∷ number flags.load_mbps ∷ " Mbps upstream load" ∷ [])
        else if ltb 0 flags.down_mbps
        then concat ("under " ∷ number flags.down_mbps ∷ " Mbps downstream load" ∷ [])
        else "idle"

    abbrev pub achieved_line : String → Option ℕ → ℕ → String
    achieved_line label none target = ""
    achieved_line label (some bps) target = concat (
        label
        ∷ fixed 1 (div (of_ℕ bps) (decimal 1_000_000 0))
        ∷ " Mbps (target "
        ∷ number target
        ∷ ")\n"
        ∷ [])

    abbrev pub quantile_line : String → Class → String
    quantile_line label c = concat (label ∷ fixed 2 c.p50 ∷ " / " ∷ fixed 2 c.p99 ∷ " ms\n" ∷ [])

    unfoldable pub diagnosis_text : Flags → Diagnosis → String
    unfolding mode_of
    diagnosis_text flags d = concat (
        concat ("qoe-cli probe diagnostic (" ∷ mode_of flags ∷ "; not a full verdict)\n" ∷ [])
        ∷ concat ("  server:                        " ∷ flags.server ∷ "\n" ∷ [])
        ∷ concat ("  base RTT (p5):                 " ∷ fixed 2 d.base_rtt ∷ " ms\n" ∷ [])
        ∷ achieved_line "  upstream load achieved:        " d.up_achieved flags.load_mbps
        ∷ achieved_line "  downstream load achieved:      " d.down_achieved flags.down_mbps
        ∷ concat (
            "  LL marking survival:           "
            ∷ fixed 1 (mul d.ll.survival (decimal 100 0))
            ∷ "% ("
            ∷ number d.ll.n
            ∷ " probes)\n"
            ∷ [])
        ∷ quantile_line "  LL working-delta  p50/p99:     " d.ll
        ∷ quantile_line "  classic working-delta p50/p99: " d.classic
        ∷ [])
