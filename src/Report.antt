-- ===== src/Report.antt =====
-- core/report/report.go: the record of a run that a tester submits.
use Prim.Native.String.{String}
use qoe_test_harness.Prelude.{ℕ, Bool, not, ◌&&◌, Option}
use qoe_test_harness.Prelude.Int.{ℤ, pos, eq_int}
use qoe_test_harness.Prelude.Texts.{str_eq}
use qoe_test_harness.Prelude.Floats.{Float64}
use qoe_test_harness.Compute.Histogram.{Histogram}
use qoe_test_harness.Compute.Verdict.{RunResult}

abbrev pub schema_version : ℕ
schema_version = 1

pub record Meta : Type 0 where
  pub run_id : String
  pub started_at_unix_ms : ℤ
  pub isp : String
  pub region : String
  pub device_class : String
  pub software_version : String
  pub provisioned_down_bps : ℕ
  pub provisioned_up_bps : ℕ

module _ (fl : Float64) where
  open fl use {F}

  pub record Telemetry : Type 0 where
    pub base_rtt_ms : F
    pub marking_survival : F
    pub capacity_achieved_bps : ℕ
    pub overshoot_achieved_bps : ℕ
    pub down_ll : Option (Histogram fl)
    pub down_classic : Option (Histogram fl)
    pub up_ll : Option (Histogram fl)
    pub up_classic : Option (Histogram fl)

  pub record RunReport : Type 0 where
    pub schema : ℤ
    pub meta : Meta
    pub result : RunResult
    pub telemetry : Telemetry

  unfoldable pub valid : RunReport → Bool
  valid r =
      eq_int r.schema (pos schema_version)
      && not (str_eq r.meta.run_id "")
      && not (str_eq r.result.verdict "")
