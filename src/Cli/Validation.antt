-- ===== src/Cli/Validation.antt =====
-- cli/cmd/qoe-cli/main.go: the mode -run of main, and runValidation with the sockets that it opens and
-- what it prints, which is left out of a run that ends on an error. `print_json` is the indenting encoder
-- of encoding/json. A flag is not negative.
use Prim.Native.String.{String, ◌++◌ as ◌#◌}
use qoe_test_harness.Prelude.{ℕ, Bool, not, List, [], ◌∷◌, Result, if◌then◌else◌}
use qoe_test_harness.Prelude.Int.{ℤ}
use qoe_test_harness.Prelude.Texts.{str_eq, concat}
use qoe_test_harness.Prelude.Floats.{Float64}
use qoe_test_harness.Prelude.Calls.{M, ◌>>=◌, ◌>>◌, return}
use qoe_test_harness.Net.Seams.{Failure, Seams}
use qoe_test_harness.Net.LoadFlow.{Sockets, DownFlow, fatal, opened, logged, bps_of}
use qoe_test_harness.Batch.{RunError, attempt, act, checked}
use qoe_test_harness.Report.{RunReport}
use qoe_test_harness.Render.{field, engineer}
use qoe_test_harness.Cli.{RunOpts, validate, Posted, submit_if_asked}

-- The flags of the mode -run.
pub record RunFlags : Type 0 where
  pub server : String
  pub down_tier_mbps : ℕ
  pub up_tier_mbps : ℕ
  pub json : Bool
  pub engineer : Bool
  pub submit : String
  pub isp : String
  pub region : String

unfoldable pub opts_of : RunFlags → RunOpts
opts_of flags = record {
  server_addr = flags.server;
  down_bps = bps_of flags.down_tier_mbps;
  up_bps = bps_of flags.up_tier_mbps;
  as_json = flags.json;
  engineer = flags.engineer;
  submit_url = flags.submit;
  isp = flags.isp;
  region = flags.region;
}

-- The seams that runValidation gives to the engine: the clock, the connection, and the flow as the load.
abbrev pub engine_seams : (seams : Seams) → DownFlow seams.World → Seams
engine_seams seams down = record {
  World = seams.World;
  now = seams.now;
  sleep = seams.sleep;
  send_probe = seams.send_probe;
  recv_echo = seams.recv_echo;
  set_rate_bps = down.set_rate_bps;
  achieved_bps = down.achieved_bps;
  stop = down.stop;
}

module _ (fl : Float64) (number : ℤ → String) (fixed : ℕ → fl.F → String) where
  open fl use {F}

  module _ (contains : String → String → Bool) (upper : String → String)
      (left right : ℕ → String → String) (seams : Seams) where
    open seams use {World}

    -- The report as it is printed.
    unfoldable pub show_report :
        (RunReport fl → Result Failure String) → RunOpts → RunReport fl → M RunError World String
    show_report print_json o rr =
        if o.as_json
        then fatal "encode" (opened (λ w. (print_json rr, w)))
        else if o.engineer
        then checked fl seams (engineer contains fl fixed upper left right rr)
        else return (field contains fl fixed upper rr)

    module _ (sockets : Sockets World) (sorted : List F → List F) (rounds : ℕ)
        (print_json : RunReport fl → Result Failure String)
        (encode : RunReport fl → Result Failure (List ℕ))
        (post : String → String → List ℕ → World → Posted fl × World) where
      -- What is printed.
      unfoldable pub run_validation : RunOpts → ℤ → ℤ → M RunError World String
      unfolding show_report
      run_validation o started_nanos started_ms = do
        fatal "dial probe socket" (attempt fl seams sockets.dial)
        logged (sockets.handshake 1)
        down ← fatal "dial downstream load" (opened (sockets.dial_down_load 2))
        rr ← fatal "run" (
            validate fl number (engine_seams seams down) sorted fixed rounds o started_nanos
              started_ms)
        text ← show_report print_json o rr
        fatal "submit" (attempt fl seams (submit_if_asked fl encode post o rr))
        act fl seams down.close
        act fl seams sockets.close
        return (text # submitted o rr)
        where
          submitted : RunOpts → RunReport fl → String
          submitted o rr =
              if not (str_eq o.submit_url "")
              then concat ("  submitted run " ∷ rr.meta.run_id ∷ " to " ∷ o.submit_url ∷ "\n" ∷ [])
              else ""
