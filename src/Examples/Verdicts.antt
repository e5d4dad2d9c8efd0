-- ===== src/Examples/Verdicts.antt =====
-- core/compute/verdict.go at a run that passes and at one over the wrong link.
use Prim.Native.String.{String}
use qoe_test_harness.Prelude.{ℕ, subst, arith, ◌≡◌, ◌↔◌, refl, true, false, some, [], ◌∷◌, ok}
use qoe_test_harness.Compute.Histogram.{Histogram, total, quantile, quantile_loop, interpolate}
use qoe_test_harness.Compute.Verdict.{
  pass, inconclusive, RunResult, Thresholds, default_thresholds, DirectionInputs, Inputs, untrusted,
  both_pass, all_pass, or_default, eval_direction, judge, evaluate,
}
use qoe_test_harness.Compute.Verdict.Outcome.{
  Demonstrated, evaluate-pass_iff, Reported, evaluate_report,
}
use qoe_test_harness.Compute.Histogram.Returns.{Covered}
use qoe_test_harness.Compute.Verdict.Returns.{DirectionCovered, evaluate_returns}
use mathlib.Core.Option.{some-injective}
use qoe_test_harness.Render.{field}
use qoe_test_harness.Render.Checklist.{Lines, Marked, checks_lem}
use qoe_test_harness.Report.{RunReport}
use qoe_test_harness.Examples.Stores.{a_run}
use qoe_test_harness.Examples.Fixed.{fixed}

abbrev text : ℕ → ℕ → String
text n x = "x"

-- Ten samples from 1 ms on, and ten from 64 ms on.
abbrev low : Histogram fixed
low = record { edges = 1000 ∷ 2000 ∷ 64_000 ∷ 128_000 ∷ []; counts = 10 ∷ 0 ∷ 0 ∷ 0 ∷ [] }

abbrev high : Histogram fixed
high = record { edges = 1000 ∷ 2000 ∷ 64_000 ∷ 128_000 ∷ []; counts = 0 ∷ 0 ∷ 10 ∷ 0 ∷ [] }

abbrev apart : DirectionInputs fixed
apart = record { ll = some low; classic = some high }

abbrev good_run : Inputs fixed
good_run = record {
  wrong_link = false;
  wrong_link_reason = "";
  capacity_ok = true;
  standing_queue_ok = true;
  baseline_drifted = false;
  no_harm_noisy = false;
  marking_survival = 1000;
  down = apart;
  up = apart;
  classic_solo_throughput_bps = 50_000;
  classic_with_ll_throughput_bps = 49_000;
  classic_solo_p99_ms = 20_000;
  classic_with_ll_p99_ms = 22_000;
}

abbrev wrong_run : Inputs fixed
wrong_run = record good_run { wrong_link = true }

abbrev thresholds : Thresholds fixed
thresholds = record {
  ll_p99_max_ms = 10_000;
  classic_p99_min_ms = 50_000;
  marking_survival_min = 990;
  no_harm_throughput_min = 900;
  no_harm_latency_margin_ms = 5000;
}

default_thresholds_test : default_thresholds fixed ≡ thresholds
unfolding default_thresholds
default_thresholds_test = refl

good_run_passes :
    (r : RunResult) × (evaluate fixed text good_run thresholds ≡ ok r) × (r.verdict ≡ pass)
unfolding evaluate judge untrusted eval_direction both_pass all_pass or_default quantile
    quantile_loop interpolate total
good_run_passes = (_, refl, refl)

wrong_run_inconclusive :
    (r : RunResult) × (evaluate fixed text wrong_run thresholds ≡ ok r) × (r.verdict ≡ inconclusive)
unfolding evaluate untrusted or_default
wrong_run_inconclusive = (_, refl, refl)

evaluate-pass_iff_example :
    (good_run_passes.0.verdict ≡ pass) ↔ Demonstrated fixed text good_run thresholds
evaluate-pass_iff_example =
    evaluate-pass_iff fixed text good_run thresholds good_run_passes.0 good_run_passes.1

evaluate_report_example : Reported fixed text wrong_run thresholds wrong_run_inconclusive.0
evaluate_report_example =
    evaluate_report fixed text wrong_run thresholds wrong_run_inconclusive.0
      wrong_run_inconclusive.1

low-Covered : Covered fixed low
low-Covered = record { some_edge = omega arith; enough_edges = omega arith }

high-Covered : Covered fixed high
high-Covered = record { some_edge = omega arith; enough_edges = omega arith }

apart-DirectionCovered : DirectionCovered fixed apart
apart-DirectionCovered = record {
  low_covered = λ h e. subst (Covered fixed) (some-injective low h e) low-Covered;
  classic_covered = λ h e. subst (Covered fixed) (some-injective high h e) high-Covered;
}

evaluate_returns_example : (r : RunResult) × (evaluate fixed text good_run thresholds ≡ ok r)
evaluate_returns_example =
    evaluate_returns fixed text good_run thresholds apart-DirectionCovered apart-DirectionCovered

abbrev good_report : RunReport fixed
good_report = record (a_run "a" 10) { result = good_run_passes.0 }

abbrev field_text : String
field_text = field (λ a b. false) fixed text (λ s. s) good_report

checks_lem_example :
    (working : String) × (marking : String) × (no_harm : String) × Lines field_text working marking
      no_harm
    × Marked fixed text good_run thresholds good_run_passes.0 working marking no_harm
checks_lem_example =
    checks_lem (λ a b. false) fixed text (λ s. s) good_report good_run thresholds good_run_passes.1
