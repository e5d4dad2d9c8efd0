-- ===== src/Compute/Verdict.antt =====
-- core/compute/result.go and core/compute/verdict.go: from reduced measurements to the outcome of a
-- run. `fixed n x` is the text of fmt's verb %.nf.
pub mod Direction
pub mod Outcome
pub mod Returns
use Prim.Native.String.{String}
use qoe_test_harness.Prelude.{
  ℕ, Bool, true, false, not, ◌&&◌, ◌||◌, Option, none, some, List, [], ◌∷◌, ◌++◌, Result, ok, err,
  ◌>>=◌, ◌==◌, if◌then◌else◌,
}
use qoe_test_harness.Prelude.Texts.{str_eq, concat}
use qoe_test_harness.Prelude.Floats.{Float64, zero_f}
use qoe_test_harness.Compute.Histogram.{Fault, Histogram, total, quantile}

abbrev pub result_version : ℕ
result_version = 1

-- Verdict is a string in the source, with these values in use.
abbrev pub Verdict : Type 0
Verdict = String

abbrev pub pass : Verdict
pass = "pass"

abbrev pub fail : Verdict
fail = "fail"

abbrev pub inconclusive : Verdict
inconclusive = "inconclusive"

pub record SubResult : Type 0 where
  pub name : String
  pub status : Verdict
  pub detail : String

-- Result in the source.
pub record RunResult : Type 0 where
  pub version : ℕ
  pub verdict : Verdict
  pub sub_results : List SubResult
  pub caveats : List String

unfoldable pub both_pass : Verdict → Verdict → Verdict
both_pass a b = if str_eq a pass && str_eq b pass then pass else fail

unfoldable pub all_pass : List Verdict → Verdict
all_pass [] = pass
all_pass (v ∷ vs) = let rest = all_pass vs in if not (str_eq v pass) then fail else rest

unfoldable pub or_default : String → String → String
or_default s default = if str_eq s "" then default else s

-- `if test { inc = append(inc, s) }`
abbrev pub append_if : Bool → String → List String → List String
append_if test s inc = if test then inc ++ (s ∷ []) else inc

module _ (fl : Float64) where
  open fl use {F, sub, mul, div, le, lt, decimal}

  pub record Thresholds : Type 0 where
    pub ll_p99_max_ms : F
    pub classic_p99_min_ms : F
    pub marking_survival_min : F
    pub no_harm_throughput_min : F
    pub no_harm_latency_margin_ms : F

  unfoldable pub default_thresholds : Thresholds
  default_thresholds = record {
    ll_p99_max_ms = decimal 10 0;
    classic_p99_min_ms = decimal 50 0;
    marking_survival_min = decimal 99 2;
    no_harm_throughput_min = decimal 90 2;
    no_harm_latency_margin_ms = decimal 5 0;
  }

  -- `none` is a nil pointer.
  pub record DirectionInputs : Type 0 where
    pub ll : Option (Histogram fl)
    pub classic : Option (Histogram fl)

  pub record Inputs : Type 0 where
    pub wrong_link : Bool
    pub wrong_link_reason : String
    pub capacity_ok : Bool
    pub standing_queue_ok : Bool
    pub baseline_drifted : Bool
    pub no_harm_noisy : Bool
    pub marking_survival : F
    pub down : DirectionInputs
    pub up : DirectionInputs
    pub classic_solo_throughput_bps : F
    pub classic_with_ll_throughput_bps : F
    pub classic_solo_p99_ms : F
    pub classic_with_ll_p99_ms : F

  -- The caveats that `Evaluate` collects in `inc`.
  unfoldable pub untrusted : Inputs → List String
  unfolding or_default
  untrusted inp = append_if inp.no_harm_noisy "no-harm legs too noisy to judge" (
      append_if inp.baseline_drifted "idle baseline drifted during the run" (
        append_if (not inp.standing_queue_ok) "no sustained standing queue formed under load" (
          append_if (not inp.capacity_ok)
            "capacity gate failed: could not reach the provisioned tier, so the access link may not be the bottleneck"
            (append_if inp.wrong_link
              (or_default inp.wrong_link_reason "test not run over the expected wired LLD line")
              []))))

  module _ (fixed : ℕ → F → String) where
    -- The verdict on the two p99s, with its text.
    abbrev pub p99_check : String → Thresholds → F → F → Verdict × String
    p99_check name th ll_p99 cl_p99 = (
      if lt ll_p99 th.ll_p99_max_ms && lt th.classic_p99_min_ms cl_p99 then pass else fail,
      concat (
          name
          ∷ " LL p99 "
          ∷ fixed 1 ll_p99
          ∷ "ms (<"
          ∷ fixed 0 th.ll_p99_max_ms
          ∷ "), classic p99 "
          ∷ fixed 1 cl_p99
          ∷ "ms (>"
          ∷ fixed 0 th.classic_p99_min_ms
          ∷ ")"
          ∷ []),
    )

    unfoldable pub eval_direction :
        String → DirectionInputs → Thresholds → Result Fault (Verdict × String)
    eval_direction name d th = elim d.ll [
      | none ↦ ok (fail, concat (name ∷ ": missing samples" ∷ []))
      | some ll ↦ elim d.classic [
        | none ↦ ok (fail, concat (name ∷ ": missing samples" ∷ []))
        | some classic ↦
            if total fl ll == 0 || total fl classic == 0
            then ok (fail, concat (name ∷ ": missing samples" ∷ []))
            else (do
              ll_p99 ← quantile fl ll (decimal 99 2)
              cl_p99 ← quantile fl classic (decimal 99 2)
              ok (p99_check name th ll_p99 cl_p99))
      ]
    ]

    abbrev pub marking_check : Inputs → Thresholds → SubResult
    marking_check inp th = record {
      name = "marking_survival";
      status = if le th.marking_survival_min inp.marking_survival then pass else fail;
      detail = concat (
          fixed 2 (mul inp.marking_survival (decimal 100 0))
          ∷ "% survived (min "
          ∷ fixed 0 (mul th.marking_survival_min (decimal 100 0))
          ∷ "%)"
          ∷ []);
    }

    abbrev pub throughput_ratio : Inputs → F
    throughput_ratio inp =
        if lt (zero_f fl) inp.classic_solo_throughput_bps
        then div inp.classic_with_ll_throughput_bps inp.classic_solo_throughput_bps
        else zero_f fl

    abbrev pub latency_increase : Inputs → F
    latency_increase inp = sub inp.classic_with_ll_p99_ms inp.classic_solo_p99_ms

    abbrev pub no_harm_check : Inputs → Thresholds → SubResult
    no_harm_check inp th = record {
      name = "no_harm";
      status =
          if le th.no_harm_throughput_min (throughput_ratio inp)
            && le (latency_increase inp) th.no_harm_latency_margin_ms
          then pass
          else fail;
      detail = concat (
          "classic throughput "
          ∷ fixed 0 (mul (throughput_ratio inp) (decimal 100 0))
          ∷ "% of solo (min "
          ∷ fixed 0 (mul th.no_harm_throughput_min (decimal 100 0))
          ∷ "%), latency +"
          ∷ fixed 1 (latency_increase inp)
          ∷ "ms (max +"
          ∷ fixed 1 th.no_harm_latency_margin_ms
          ∷ "ms)"
          ∷ []);
    }

    -- `Evaluate` once every gate is passed.
    unfoldable pub judge : Inputs → Thresholds → Result Fault RunResult
    unfolding both_pass all_pass
    judge inp th = do
      (d_status, d_detail) ← eval_direction "downstream" inp.down th
      (u_status, u_detail) ← eval_direction "upstream" inp.up th
      let working = both_pass d_status u_status
      ok (record {
        version = result_version;
        verdict =
            all_pass (working ∷ (marking_check inp th).status ∷ (no_harm_check inp th).status ∷ []);
        sub_results =
            record {
              name = "working";
              status = working;
              detail = concat (d_detail ∷ "; " ∷ u_detail ∷ []);
            }
            ∷ marking_check inp th
            ∷ no_harm_check inp th
            ∷ [];
        caveats = [];
      })

    unfoldable pub evaluate : Inputs → Thresholds → Result Fault RunResult
    evaluate inp th = elim (untrusted inp) [
      | [] ↦ judge inp th
      | c ∷ cs ↦ ok (record {
        version = result_version;
        verdict = inconclusive;
        sub_results = [];
        caveats = c ∷ cs;
      })
    ]
