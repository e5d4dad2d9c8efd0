-- ===== src/Examples/Runs.antt =====
-- core/engine/engine.go over a simulated path that separates the two queues.
use Prim.Native.String.{String}
use qoe_test_harness.Prelude.{
  ◌^◌, le→leb, ℕ, suc, ◌*◌, ◌/◌, ◌-◌, ◌<◌, ◌≡◌, ◌↔◌, ◌⊎◌, refl, ap, ◌∙◌, true, false, List, [], ◌∷◌,
  none, some, ok, length, leb, if◌then◌else◌, arith,
}
use qoe_test_harness.Compute.Histogram.{
  Histogram, new_histogram, new_default_histogram, bin_search, bin_index, observe, total,
  interpolate, quantile_loop, quantile,
}
use qoe_test_harness.Compute.Stats.{between_ranks, base_rtt, working_delta}
use qoe_test_harness.Compute.Verdict.{
  pass, inconclusive, default_thresholds, both_pass, all_pass, or_default, untrusted,
  eval_direction, judge, evaluate,
}
use qoe_test_harness.Net.Loopback.{
  Loopback, new_loopback, is_ll, send_probe, recv_echo, set_rate_bps, achieved_bps, stop,
}
use qoe_test_harness.Net.Loopback.Simulator.{simulator}
use qoe_test_harness.Prelude.Calls.{Runs, Runs-bind, ◌>>=◌, ◌>>◌}
use qoe_test_harness.Batch.{
  marking_survived, count_echo, send_all, drain, batch_probe, observe_deltas, hist_batch, Probed,
}
use qoe_test_harness.Engine.{fill_defaults, default_config, Config, Report, run_full}
use qoe_test_harness.Engine.Backed.{Backed, reached_tier, run_full-pass, run_full-inconclusive_iff}
use qoe_test_harness.Batch.Simulated.{arrivals, Summarised, batch_probe-Summarised}
use qoe_test_harness.Latency.{Scenario, probe}
use qoe_test_harness.Latency.Gathering.{Separated}
use qoe_test_harness.Latency.Classes.{alternating, probe-Separated}
use qoe_test_harness.Engine.Ending.{AtRest, run_full_returns}
use qoe_test_harness.Prelude.Int.{ℤ, pos}
use qoe_test_harness.Report.{RunReport}
use qoe_test_harness.Dashboard.{Store}
use qoe_test_harness.Cli.{RunOpts, config_of, make_report, validate, submit}
use qoe_test_harness.Cli.Accepted.{post_to, submit_accepted}
use qoe_test_harness.Examples.Fixed.{fixed, fixed-Ordered, fixed-Rounded, part-le}

abbrev pub text : ℕ → ℕ → String
text n x = "x"

abbrev put : ℕ → List ℕ → List ℕ
put x [] = x ∷ []
put x (y ∷ ys) = let rest = put x ys in if leb x y then x ∷ y ∷ ys else y ∷ rest

abbrev pub sort : List ℕ → List ℕ
sort [] = []
sort (x ∷ xs) = put x (sort xs)

length-put : (x : ℕ) (xs : List ℕ) → length (put x xs) ≡ suc (length xs)
length-put x [] = refl
length-put x (y ∷ ys) = ground (arith, length-put x ys)

pub length-sort : (xs : List ℕ) → length (sort xs) ≡ length xs
length-sort [] = refl
length-sort (x ∷ xs) = length-put x (sort xs) ∙ ap suc (length-sort xs)

pub index_in_range :
    (xs : List ℕ) (p : ℕ)
    → leb p p ≡ true
    → leb p 0 ≡ false
    → leb 1000 p ≡ false
    → 0 < length xs
    → (leb 0 (p * ((length xs - 1) * 1000) / 1000) ≡ true)
      × (p * ((length xs - 1) * 1000) / 1000 / 1000 < length xs)
index_in_range xs p number above below filled = (
  le→leb 0 (p * ((length xs - 1) * 1000) / 1000) (omega arith),
  omega (arith, part-le p ((length xs - 1) * 1000) (ground arith)),
)

pub constant_in_range :
    (xs : List ℕ) (m k : ℕ)
    → leb (m * 1000 / 10 ^ k) 0 ≡ false
    → leb 1000 (m * 1000 / 10 ^ k) ≡ false
    → 0 < length xs
    → (leb 0 (m * 1000 / 10 ^ k * ((length xs - 1) * 1000) / 1000) ≡ true)
      × (m * 1000 / 10 ^ k * ((length xs - 1) * 1000) / 1000 / 1000 < length xs)
constant_in_range xs m k =
    let c = m * 1000 / 10 ^ k in index_in_range xs c (le→leb c c (omega arith))

-- A link of 1000 bit/s, with 80 ms of classic and 1 ms of low-latency queueing under load.
abbrev pub link : Loopback
link = new_loopback 0 (record {
  base_rtt = 10_000_000;
  ll_queue_delay = 1_000_000;
  classic_queue_delay = 80_000_000;
  jitter_step_ms = 0;
  drop_every = 3;
  bleach = false;
  ce_when_loaded = true;
  max_achievable_bps = 1000;
})

abbrev short_run : ℕ → Config fixed
short_run tier = record (default_config fixed) {
  provisioned_down_bps = tier;
  overshoot_bps = tier * 13 / 10;
  baseline_probes = 2;
  loaded_probes = 3;
}

good_run :
    (rep : Report fixed) × (l : Loopback) × Runs
      (run_full fixed simulator sort text 5 (short_run 1000))
      link
      rep
      l
    × (rep.result.verdict ≡ pass)
unfolding run_full ◌>>=◌ ◌>>◌ batch_probe send_all drain count_echo marking_survived hist_batch
    observe_deltas observe bin_index bin_search new_histogram new_default_histogram quantile
    quantile_loop interpolate total base_rtt between_ranks working_delta evaluate judge untrusted
    eval_direction both_pass all_pass or_default new_loopback is_ll send_probe recv_echo
    set_rate_bps achieved_bps stop default_config default_thresholds
good_run = (_, _, refl, refl)

run_full-pass_example : Backed fixed simulator sort text (short_run 1000) good_run.0
run_full-pass_example =
    run_full-pass fixed simulator sort text 5 (short_run 1000) link good_run.1 good_run.0 good_run.2
      good_run.3

run_full-inconclusive_iff_example :
    (classic : Histogram fixed) × (median : ℕ) × (good_run.0.down_classic ≡ some classic)
    × (quantile fixed classic 500 ≡ ok median)
    × ((good_run.0.result.verdict ≡ inconclusive) ↔ (
        (reached_tier fixed simulator sort text (short_run 1000) good_run.0 ≡ false)
        ⊎ (leb (short_run 1000).standing_queue_min_ms median ≡ false)))
run_full-inconclusive_iff_example =
    run_full-inconclusive_iff fixed simulator sort text 5 (short_run 1000) link good_run.1
      good_run.0 good_run.2

-- A link of half the tier.
run_full_returns_example :
    (rep : Report fixed) × (l : Loopback) × Runs
      (run_full fixed simulator sort text 5 (short_run 2000))
      link
      rep
      l
    × AtRest fixed fixed-Ordered fixed-Rounded l
unfolding default_config new_loopback
run_full_returns_example =
    run_full_returns fixed fixed-Ordered fixed-Rounded sort text length-sort index_in_range 5
      (short_run 2000) link (omega arith) (omega arith) refl refl

batch_probe-Summarised_example :
    (p : Probed fixed) × (l : Loopback) × Runs (batch_probe fixed simulator 5 181 4) link p l
    × (l.pending ≡ [])
    × Summarised fixed 181 (arrivals link.cfg link.loaded link.clock 181 1 4) p
unfolding new_loopback
batch_probe-Summarised_example = batch_probe-Summarised fixed 5 181 4 link refl (omega arith)

-- The client's run with its defaults, on a tier of 1000 bit/s.
abbrev options : RunOpts
options = record {
  server_addr = "192.0.2.1:4460";
  down_bps = 1000;
  up_bps = 100;
  as_json = false;
  engineer = false;
  submit_url = "http://192.0.2.2/ingest";
  isp = "Acme";
  region = "";
}

default_run :
    (rep : Report fixed) × (l : Loopback) × Runs
      (run_full fixed simulator sort text 501 (fill_defaults fixed (config_of fixed options)))
      link
      rep
      l
    × AtRest fixed fixed-Ordered fixed-Rounded l
unfolding fill_defaults config_of default_config new_loopback
default_run =
    run_full_returns fixed fixed-Ordered fixed-Rounded sort text length-sort index_in_range 501
      (fill_defaults fixed (config_of fixed options)) link (omega arith) (omega arith) refl refl

abbrev shown : ℤ → String
shown z = "1"

abbrev submitted : RunReport fixed
submitted = make_report fixed shown options (pos 1) (pos 0) default_run.0

validated :
    Runs
      (validate fixed shown simulator sort text 501 options (pos 1) (pos 0))
      link
      submitted
      default_run.1
unfolding validate
validated =
    Runs-bind
      (run_full fixed simulator sort text 501 (fill_defaults fixed (config_of fixed options))) _
      link default_run.0 default_run.1 default_run.2 refl

abbrev all_runs : Store fixed
all_runs = record {
  State = List (RunReport fixed);
  save_run = λ s r. some (r ∷ s);
  list_runs = λ s f. some s;
}

submit_accepted_example :
    submit fixed
      (λ r. ok [])
      (post_to fixed shown simulator sort text all_runs (λ b. some submitted) (λ n. ""))
      "/ingest"
      submitted
      []
    ≡ (none, submitted ∷ [])
submit_accepted_example =
    submit_accepted fixed shown simulator sort text 501 options (pos 1) (pos 0) link default_run.1
      submitted validated all_runs [] (submitted ∷ []) (λ r. ok []) (λ b. some submitted) (λ n. "")
      "/ingest" [] refl refl refl

probe-Separated_example :
    (s : Scenario fixed) × (l : Loopback) × Runs (probe fixed simulator sort 9 "idle" 4) link s l
    × (l.pending ≡ [])
    × Separated fixed (alternating link.cfg link.loaded link.clock 1 8) s
unfolding new_loopback
probe-Separated_example =
    probe-Separated fixed sort length-sort constant_in_range 9 "idle" 4 link refl (omega arith)
