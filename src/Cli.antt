-- ===== src/Cli.antt =====
-- cli/cmd/qoe-cli/main.go: the validation mode, from the run to the submitted report. `encode` is
-- json.Marshal, `number` is fmt's verb %d; the wall clock's reading at the start is an argument, in
-- nanoseconds and in milliseconds. The flags and the sockets that main opens are left out.
pub mod Accepted
pub mod Diagnostic
pub mod Validation
pub mod Loads
pub mod Returns
use Prim.Native.String.{String, ◌++◌}
use qoe_test_harness.Prelude.{
  ℕ, Bool, not, Option, none, some, List, Result, ok, err, ◌==◌, if◌then◌else◌,
}
use qoe_test_harness.Prelude.Int.{ℤ, pos}
use qoe_test_harness.Prelude.Texts.{str_eq}
use qoe_test_harness.Prelude.Floats.{Float64, zero_f}
use qoe_test_harness.Prelude.Calls.{M, ◌>>=◌, return}
use qoe_test_harness.Compute.Verdict.{Thresholds}
use qoe_test_harness.Net.Seams.{Failure, Seams}
use qoe_test_harness.Batch.{RunError}
use qoe_test_harness.Engine.{Config, Report, fill_defaults, run_full}
use qoe_test_harness.Report.{schema_version, Meta, RunReport}

-- runOpts.
pub record RunOpts : Type 0 where
  pub server_addr : String
  pub down_bps : ℕ
  pub up_bps : ℕ
  pub as_json : Bool
  pub engineer : Bool
  pub submit_url : String
  pub isp : String
  pub region : String

module _ (fl : Float64) where
  -- The configuration that runValidation gives, with Go's zeros in the fields that it leaves out.
  unfoldable pub config_of : RunOpts → Config fl
  config_of o = record {
    thresholds = record {
      ll_p99_max_ms = zero_f fl;
      classic_p99_min_ms = zero_f fl;
      marking_survival_min = zero_f fl;
      no_harm_throughput_min = zero_f fl;
      no_harm_latency_margin_ms = zero_f fl;
    };
    provisioned_down_bps = o.down_bps;
    provisioned_up_bps = o.up_bps;
    baseline_probes = 0;
    loaded_probes = 0;
    overshoot_bps = 0;
    capacity_tolerance_frac = zero_f fl;
    standing_queue_min_ms = zero_f fl;
    baseline_pct = zero_f fl;
    load_settle = 0;
  }

  module _ (number : ℤ → String) where
    unfoldable pub make_report : RunOpts → ℤ → ℤ → Report fl → RunReport fl
    make_report o started_nanos started_ms rep = record {
      schema = pos schema_version;
      meta = record {
        run_id = "cli-" ++ number started_nanos;
        started_at_unix_ms = started_ms;
        isp = o.isp;
        region = o.region;
        device_class = "cli";
        software_version = "";
        provisioned_down_bps = o.down_bps;
        provisioned_up_bps = o.up_bps;
      };
      result = rep.result;
      telemetry = record {
        base_rtt_ms = rep.base_rtt_ms;
        marking_survival = rep.marking_survival;
        capacity_achieved_bps = rep.capacity_achieved_bps;
        overshoot_achieved_bps = rep.overshoot_achieved_bps;
        down_ll = rep.down_ll;
        down_classic = rep.down_classic;
        up_ll = none;
        up_classic = none;
      };
    }

    -- The run of runValidation, on the seams that it has opened.
    unfoldable pub validate :
        (seams : Seams)
        → (List fl.F → List fl.F)
        → (ℕ → fl.F → String)
        → ℕ
        → RunOpts
        → ℤ
        → ℤ
        → M RunError seams.World (RunReport fl)
    unfolding make_report config_of
    validate seams sorted fixed rounds o started_nanos started_ms = do
      rep ← run_full fl seams sorted fixed rounds (fill_defaults fl (config_of o))
      return (make_report o started_nanos started_ms rep)

  -- What http.Post returns: an error, or the answer's status code and status.
  abbrev pub Posted : Type 0
  Posted = Result Failure (ℕ × String)

  -- `none` is a nil error. `post url type body` is http.Post.
  unfoldable pub submit :
      {World : Type 0}
      → (RunReport fl → Result Failure (List ℕ))
      → (String → String → List ℕ → World → Posted × World)
      → String
      → RunReport fl
      → World
      → Option Failure × World
  submit encode post url rr w = elim (encode rr) [
    | err f ↦ (some f, w)
    | ok body ↦
        let (answer, w') = post url "application/json" body w in
        elim answer [
          | err f ↦ (some f, w')
          | ok (status, text) ↦
              (if not (status == 204) then some ("ingest returned " ++ text) else none, w')
        ]
  ]

  -- The end of runValidation.
  unfoldable pub submit_if_asked :
      {World : Type 0}
      → (RunReport fl → Result Failure (List ℕ))
      → (String → String → List ℕ → World → Posted × World)
      → RunOpts
      → RunReport fl
      → World
      → Option Failure × World
  unfolding submit
  submit_if_asked encode post o rr w =
      if not (str_eq o.submit_url "") then submit encode post o.submit_url rr w else (none, w)
