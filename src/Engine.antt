-- ===== src/Engine.antt =====
-- core/engine/engine.go: the phases of a validation run, over any seams. `sorted` is sort.Float64s and
-- `fixed n x` the text of fmt's verb %.nf. An int of the configuration is not negative.
pub mod Backed
pub mod Ending
use Prim.Native.String.{String}
use qoe_test_harness.Prelude.{
  ℕ, zero, suc, ◌+◌, ◌*◌, ◌/◌, ◌%◌, ◌^◌, Bool, true, false, not, ◌&&◌, Option, none, some, List, [],
  ◌∷◌, ◌++◌, map, Result, ok, err, ltb, ◌==◌, if◌then◌else◌,
}
use qoe_test_harness.Prelude.Int.{elapsed}
use qoe_test_harness.Prelude.Floats.{Float64, zero_f}
use qoe_test_harness.Compute.Histogram.{Fault, Histogram, new_default_histogram, observe, quantile}
use qoe_test_harness.Compute.Stats.{base_rtt, working_delta}
use qoe_test_harness.Compute.Verdict.{
  RunResult, Thresholds, default_thresholds, DirectionInputs, Inputs, evaluate,
}
use qoe_test_harness.Net.Conn.{Probe, Echo, not_ect, ll_mark}
use qoe_test_harness.Net.Seams.{Failure, Received, echo, no_more, broken, Seams}
use qoe_test_harness.Prelude.Calls.{M, ◌>>=◌, ◌>>◌, return}
use qoe_test_harness.Batch.{
  RunError, Probed, Measured, attempt, checked, act, ask, batch_probe, hist_batch,
}

-- 500 ms.
abbrev pub default_load_settle : ℕ
default_load_settle = 500_000_000

module _ (fl : Float64) where
  open fl use {F, add, sub, mul, div, le, lt, eq, of_ℕ, of_ℤ, decimal}

  -- Config without its three seams, which are an argument of the calls.
  pub record Config : Type 0 where
    pub thresholds : Thresholds fl
    pub provisioned_down_bps : ℕ
    pub provisioned_up_bps : ℕ
    pub baseline_probes : ℕ
    pub loaded_probes : ℕ
    pub overshoot_bps : ℕ
    pub capacity_tolerance_frac : F
    pub standing_queue_min_ms : F
    pub baseline_pct : F
    pub load_settle : ℕ

  unfoldable pub default_config : Config
  default_config = record {
    thresholds = default_thresholds fl;
    provisioned_down_bps = 0;
    provisioned_up_bps = 0;
    baseline_probes = 200;
    loaded_probes = 500;
    overshoot_bps = 0;
    capacity_tolerance_frac = decimal 9 1;
    standing_queue_min_ms = decimal 30 0;
    baseline_pct = decimal 5 2;
    load_settle = default_load_settle;
  }

  -- `th == (compute.Thresholds{})`.
  abbrev pub no_thresholds : Thresholds fl → Bool
  no_thresholds th =
      eq th.ll_p99_max_ms (zero_f fl)
      && eq th.classic_p99_min_ms (zero_f fl)
      && eq th.marking_survival_min (zero_f fl)
      && eq th.no_harm_throughput_min (zero_f fl)
      && eq th.no_harm_latency_margin_ms (zero_f fl)

  abbrev or_value : ℕ → ℕ → ℕ
  or_value n d = if n == 0 then d else n

  abbrev or_float : F → F → F
  or_float x d = if eq x (zero_f fl) then d else x

  -- New.
  unfoldable pub fill_defaults : Config → Config
  unfolding default_config
  fill_defaults cfg =
      let d = default_config in
      record {
        thresholds = if no_thresholds cfg.thresholds then d.thresholds else cfg.thresholds;
        provisioned_down_bps = cfg.provisioned_down_bps;
        provisioned_up_bps = cfg.provisioned_up_bps;
        baseline_probes = or_value cfg.baseline_probes d.baseline_probes;
        loaded_probes = or_value cfg.loaded_probes d.loaded_probes;
        overshoot_bps = or_value cfg.overshoot_bps (cfg.provisioned_down_bps * 13 % 2 ^ 64 / 10);
        capacity_tolerance_frac = or_float cfg.capacity_tolerance_frac d.capacity_tolerance_frac;
        standing_queue_min_ms = or_float cfg.standing_queue_min_ms d.standing_queue_min_ms;
        baseline_pct = or_float cfg.baseline_pct d.baseline_pct;
        load_settle = or_value cfg.load_settle d.load_settle;
      }

  -- `none` is a nil pointer.
  pub record Report : Type 0 where
    pub result : RunResult
    pub base_rtt_ms : F
    pub marking_survival : F
    pub capacity_achieved_bps : ℕ
    pub overshoot_achieved_bps : ℕ
    pub down_ll : Option (Histogram fl)
    pub down_classic : Option (Histogram fl)

  module _ (seams : Seams) where
    open seams use {World, now, sleep, send_probe, recv_echo, set_rate_bps, achieved_bps, stop}

    module _ (sorted : List F → List F) (fixed : ℕ → F → String) where
      -- What RunFull hands to Evaluate. `solo` and `with_ll` are the two rates of the no-harm legs.
      abbrev pub inputs_of :
          Bool → Bool → F → Histogram fl → Histogram fl → ℕ → ℕ → F → F → Inputs fl
      inputs_of capacity_ok standing_queue_ok survival ll classic solo with_ll solo_p99 with_p99 =
          record {
            wrong_link = false;
            wrong_link_reason = "";
            capacity_ok = capacity_ok;
            standing_queue_ok = standing_queue_ok;
            baseline_drifted = false;
            no_harm_noisy = false;
            marking_survival = survival;
            down = record { ll = some ll; classic = some classic };
            up = record { ll = some ll; classic = some classic };
            classic_solo_throughput_bps = of_ℕ solo;
            classic_with_ll_throughput_bps = of_ℕ with_ll;
            classic_solo_p99_ms = solo_p99;
            classic_with_ll_p99_ms = with_p99;
          }

      unfoldable pub run_full : ℕ → Config → M RunError World Report
      run_full rounds c = do
        act fl seams stop
        idle ← batch_probe fl seams rounds not_ect c.baseline_probes
        base ← checked fl seams (base_rtt fl sorted idle.rtts c.baseline_pct)
        attempt fl seams (set_rate_bps c.provisioned_down_bps)
        act fl seams (sleep c.load_settle)
        achieved ← ask fl seams achieved_bps
        attempt fl seams (set_rate_bps c.overshoot_bps)
        act fl seams (sleep c.load_settle)
        ll ← hist_batch fl seams rounds ll_mark c.loaded_probes base
        classic ← hist_batch fl seams rounds not_ect c.loaded_probes base
        median ← checked fl seams (quantile fl classic.histogram (decimal 5 1))
        solo ← ask fl seams achieved_bps
        solo_leg ← hist_batch fl seams rounds not_ect c.loaded_probes base
        with_ll ← ask fl seams achieved_bps
        with_leg ← hist_batch fl seams rounds not_ect c.loaded_probes base
        act fl seams stop
        solo_p99 ← checked fl seams (quantile fl solo_leg.histogram (decimal 99 2))
        with_p99 ← checked fl seams (quantile fl with_leg.histogram (decimal 99 2))
        result ← checked fl seams (
            evaluate fl fixed
              (inputs_of
                (le (mul c.capacity_tolerance_frac (of_ℕ c.provisioned_down_bps)) (of_ℕ achieved))
                (le c.standing_queue_min_ms median) ll.survival ll.histogram classic.histogram solo
                with_ll solo_p99 with_p99)
              c.thresholds)
        return (record {
          result = result;
          base_rtt_ms = base;
          marking_survival = ll.survival;
          capacity_achieved_bps = achieved;
          overshoot_achieved_bps = with_ll;
          down_ll = some ll.histogram;
          down_classic = some classic.histogram;
        })

      -- The method Run.
      unfoldable pub run : ℕ → Config → M RunError World RunResult
      unfolding run_full
      run rounds c = do rep ← run_full rounds c; return rep.result
