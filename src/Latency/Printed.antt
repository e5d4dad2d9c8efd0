-- ===== src/Latency/Printed.antt =====
-- cli/cmd/qoe-latency/main.go: what main prints. `number` is the text of the verb %d, `fixed n x` that
-- of %.nf, and `left n s` and `right n s` pad to a width as %-ns and %ns do.
use Prim.Native.String.{String}
use qoe_test_harness.Prelude.{ℕ, List, [], ◌∷◌, map}
use qoe_test_harness.Prelude.Texts.{concat}
use qoe_test_harness.Prelude.Floats.{Float64}
use qoe_test_harness.Latency.{Rtt, Scenario}
use qoe_test_harness.Latency.Scenarios.{Flags}

module _ (fl : Float64) (number : ℕ → String) (fixed : ℕ → fl.F → String) where
  module _ (left right : ℕ → String → String) where
    open fl use {F}

    abbrev pub columns : List String → String
    columns texts = concat (map (λ t. concat (" " ∷ right 8 t ∷ [])) texts)

    unfoldable pub rtt_line : String → String → Rtt fl → String
    rtt_line name class r = concat (
        left 14 name
        ∷ class
        ∷ columns (fixed 2 r.p50 ∷ fixed 2 r.p90 ∷ fixed 2 r.p99 ∷ fixed 2 r.max ∷ [])
        ∷ "\n"
        ∷ [])

    unfoldable pub rtt_lines : Scenario fl → String
    unfolding rtt_line
    rtt_lines s = concat (rtt_line s.name " cl  " s.classic ∷ rtt_line "" " LL  " s.ll ∷ [])

    -- `w` is the width of a percentage.
    abbrev pub percentage : ℕ → F → String
    percentage w x = concat (" " ∷ right w (fixed 1 x) ∷ "%" ∷ [])

    unfoldable pub mark_line : Scenario fl → String
    mark_line s =
        let m = s.m in
        concat (
          left 18 s.name
          ∷ percentage 6 m.up_ect
          ∷ percentage 6 m.up_nqb
          ∷ percentage 5 m.up_ce
          ∷ "  "
          ∷ percentage 6 m.dn_ect
          ∷ percentage 6 m.dn_nqb
          ∷ percentage 5 m.dn_ce
          ∷ "\n"
          ∷ [])

    unfoldable pub printed : Flags → List (Scenario fl) → String
    unfolding rtt_lines mark_line
    printed flags scen = concat (
        concat (
          "\nserver "
          ∷ flags.server
          ∷ ", "
          ∷ number flags.probes
          ∷ " probes/class/cell, interleaved, settle="
          ∷ number flags.settle_ms
          ∷ "ms, down="
          ∷ number flags.down_mbps
          ∷ " up="
          ∷ number flags.up_mbps
          ∷ " Mbps\n\n"
          ∷ [])
        ∷ "ABSOLUTE RTT (ms)\n"
        ∷ concat (left 18 "scenario" ∷ columns ("p50" ∷ "p90" ∷ "p99" ∷ "max" ∷ []) ∷ "\n" ∷ [])
        ∷ concat (map rtt_lines scen)
        ∷ "\nLL-CLASS MARKING (percent of LL probes) — up = client->server, dn = server->client echo\n"
        ∷ concat (
            left 18 "scenario"
            ∷ " "
            ∷ right 7 "up_ECT"
            ∷ " "
            ∷ right 7 "up_NQB"
            ∷ " "
            ∷ right 6 "up_CE"
            ∷ "   "
            ∷ right 7 "dn_ECT"
            ∷ " "
            ∷ right 7 "dn_NQB"
            ∷ " "
            ∷ right 6 "dn_CE"
            ∷ "\n"
            ∷ [])
        ∷ concat (map mark_line scen)
        ∷ [])
