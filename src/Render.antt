-- ===== src/Render.antt =====
-- cli/internal/render/render.go: the texts of a report. `fixed n x` is the text of fmt's verb %.nf,
-- `left n s` and `right n s` pad to a width as %-ns and %ns do, and `upper` and `contains` are the
-- functions of the package strings.
pub mod Checklist
use Prim.Native.String.{String}
use qoe_test_harness.Prelude.{
  ℕ, Bool, true, false, ◌||◌, Option, none, some, List, [], ◌∷◌, ◌++◌, map, Result, ok, err, ltb,
  if◌then◌else◌, Result, ◌>>=◌,
}
use qoe_test_harness.Prelude.Texts.{str_eq, concat}
use qoe_test_harness.Prelude.Maps.{lookup, insert, text_key}
use qoe_test_harness.Prelude.Floats.{Float64}
use qoe_test_harness.Compute.Histogram.{Fault, Histogram, quantile}
use qoe_test_harness.Compute.Verdict.{Verdict, pass, fail, inconclusive, SubResult, RunResult}
use qoe_test_harness.Report.{RunReport}

-- A map literal's value at a key, or the empty text.
abbrev pub text_at : String → List (String × String) → String
text_at k m = elim (lookup k m) [ some t ↦ t | none ↦ "" ]

abbrev pub friendly_check : List (String × String)
friendly_check =
    ("working", "Low latency is working")
    ∷ ("marking_survival", "Low-latency tags survived the network")
    ∷ ("no_harm", "Classic traffic is unharmed")
    ∷ []

abbrev pub field_order : List String
field_order = "working" ∷ "marking_survival" ∷ "no_harm" ∷ []

abbrev pub friendly_caveat : List (String × String)
friendly_caveat =
    (
      "capacity gate failed: could not reach the provisioned tier, so the access link may not be the bottleneck",
      "Couldn't confirm your line is the bottleneck — connect wired to the modem and close other downloads, then retry.",
    )
    ∷ (
      "no sustained standing queue formed under load",
      "The test couldn't load the link hard enough to judge — make sure you're wired directly to the modem, then retry.",
    )
    ∷ []

unfoldable pub glyph : Verdict → String
glyph v = if str_eq v pass then "✓" else if str_eq v fail then "✗" else "—"

unfoldable pub or_dash : String → String
or_dash s = if str_eq s "" then "—" else s

-- The map from names to statuses; a later sub-result takes the place of an earlier one.
unfoldable pub statuses : List (String × Verdict) → List SubResult → List (String × Verdict)
statuses subs [] = subs
statuses subs (s ∷ rest) = statuses (insert s.name s.status subs) rest

-- The glyph of a check, of `inconclusive` if the run has no such sub-result.
unfoldable pub check_glyph : RunResult → String → String
unfolding glyph statuses
check_glyph res name =
    glyph (elim (lookup name (statuses [] res.sub_results)) [ some v ↦ v | none ↦ inconclusive ])

abbrev pub friendly : String → String
friendly c = elim (lookup c friendly_caveat) [ some f ↦ f | none ↦ c ]

module _ (contains : String → String → Bool) where
  unfoldable pub has_capacity_caveat : List String → Bool
  has_capacity_caveat [] = false
  has_capacity_caveat (c ∷ cs) =
      let rest = has_capacity_caveat cs in if contains c "capacity gate failed" then true else rest

  module _ (fl : Float64) (fixed : ℕ → fl.F → String) (upper : String → String) where
    open fl use {F, mul, div, of_ℕ, decimal}

    unfoldable pub mbps : ℕ → F
    mbps bps = div (of_ℕ bps) (decimal 1_000_000 0)

    -- The technician's view.
    unfoldable pub field : RunReport fl → String
    unfolding check_glyph has_capacity_caveat mbps
    field rr =
        let res = rr.result in
        let path_glyph = if has_capacity_caveat res.caveats then "✗" else "✓" in
        let tier = rr.meta.provisioned_down_bps in
        concat (
          "LLD / L4S validation\n"
          ∷ (if ltb 0 tier
              then concat (
                  "  "
                  ∷ path_glyph
                  ∷ "  Path clear (your line is the bottleneck): "
                  ∷ fixed 0 (mbps rr.telemetry.capacity_achieved_bps)
                  ∷ " / "
                  ∷ fixed 0 (mbps tier)
                  ∷ " Mbps\n"
                  ∷ [])
              else concat ("  " ∷ path_glyph ∷ "  Path clear (your line is the bottleneck)\n" ∷ []))
          ∷ concat (
              map
                (λ name.
                  concat
                    ("  " ∷ check_glyph res name ∷ "  " ∷ text_at name friendly_check ∷ "\n" ∷ []))
                field_order)
          ∷ "  ──────────────────────────────\n"
          ∷ concat ("  RESULT: " ∷ upper res.verdict ∷ "\n" ∷ [])
          ∷ concat (map (λ c. concat ("    • " ∷ friendly c ∷ "\n" ∷ [])) res.caveats)
          ∷ [])

    module _ (left right : ℕ → String → String) where
      -- A quantile that panics ends the rendering.
      unfoldable pub write_pcts : String → Histogram fl → Result Fault String
      write_pcts label h = do
        p50 ← quantile fl h (decimal 50 2)
        p90 ← quantile fl h (decimal 90 2)
        p99 ← quantile fl h (decimal 99 2)
        p999 ← quantile fl h (decimal 999 3)
        ok (
            concat (
              left 8 label
              ∷ " "
              ∷ right 8 (fixed 2 p50)
              ∷ " "
              ∷ right 8 (fixed 2 p90)
              ∷ " "
              ∷ right 8 (fixed 2 p99)
              ∷ " "
              ∷ right 8 (fixed 2 p999)
              ∷ "\n"
              ∷ []))

      abbrev pub percentiles : Option (Histogram fl) → Option (Histogram fl) → Result Fault String
      percentiles none classic = ok ""
      percentiles (some ll) none = ok ""
      percentiles (some ll) (some classic) = do
        a ← write_pcts "    low-lat" ll
        b ← write_pcts "    classic" classic
        ok (
            concat (
              "  working-delta (downstream), ms:\n"
              ∷ concat (
                  "    "
                  ∷ left 8 ""
                  ∷ " "
                  ∷ right 8 "p50"
                  ∷ " "
                  ∷ right 8 "p90"
                  ∷ " "
                  ∷ right 8 "p99"
                  ∷ " "
                  ∷ right 8 "p99.9"
                  ∷ "\n"
                  ∷ [])
              ∷ a
              ∷ b
              ∷ []))

      -- The engineer's view.
      unfoldable pub engineer : RunReport fl → Result Fault String
      unfolding write_pcts or_dash mbps
      engineer rr = do
        let res = rr.result
        let t = rr.telemetry
        pcts ← percentiles t.down_ll t.down_classic
        ok (
            concat (
              "LLD / L4S validation — engineer view\n"
              ∷ concat (
                  "  run:                 "
                  ∷ rr.meta.run_id
                  ∷ "  ("
                  ∷ or_dash rr.meta.isp
                  ∷ "/"
                  ∷ or_dash rr.meta.region
                  ∷ ")\n"
                  ∷ [])
              ∷ concat (
                  "  tiers:               "
                  ∷ fixed 0 (mbps rr.meta.provisioned_down_bps)
                  ∷ " down / "
                  ∷ fixed 0 (mbps rr.meta.provisioned_up_bps)
                  ∷ " up Mbps\n"
                  ∷ [])
              ∷ concat ("  base RTT:            " ∷ fixed 2 t.base_rtt_ms ∷ " ms\n" ∷ [])
              ∷ concat (
                  "  marking survival:    "
                  ∷ fixed 1 (mul t.marking_survival (decimal 100 0))
                  ∷ "%\n"
                  ∷ [])
              ∷ concat (
                  "  capacity achieved:   "
                  ∷ fixed 1 (mbps t.capacity_achieved_bps)
                  ∷ " / "
                  ∷ fixed 0 (mbps rr.meta.provisioned_down_bps)
                  ∷ " Mbps\n"
                  ∷ [])
              ∷ concat (
                  "  overshoot achieved:  "
                  ∷ fixed 1 (mbps t.overshoot_achieved_bps)
                  ∷ " Mbps\n"
                  ∷ [])
              ∷ pcts
              ∷ concat ("  VERDICT: " ∷ upper res.verdict ∷ "\n" ∷ [])
              ∷ concat (
                  map
                    (λ s. concat (
                      "    - "
                      ∷ left 16 s.name
                      ∷ " "
                      ∷ left 12 s.status
                      ∷ " "
                      ∷ s.detail
                      ∷ "\n"
                      ∷ []))
                    res.sub_results)
              ∷ concat (map (λ c. concat ("    caveat: " ∷ c ∷ "\n" ∷ [])) res.caveats)
              ∷ []))
