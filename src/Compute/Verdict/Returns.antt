-- ===== src/Compute/Verdict/Returns.antt =====
-- `evaluate` returns a report.
use Prim.Native.String.{String}
use qoe_test_harness.Prelude.{
  ℕ, ◌≡◌, refl, inl, inr, ◌||◌, some, ok, ◌==◌, Bool-cases, Option-cases,
}
use qoe_test_harness.Prelude.Floats.{Float64}
use qoe_test_harness.Compute.Histogram.{Histogram, total}
use qoe_test_harness.Compute.Histogram.Returns.{Covered, quantile_returns}
use qoe_test_harness.Compute.Verdict.{
  Verdict, RunResult, Thresholds, DirectionInputs, Inputs, eval_direction, judge, evaluate,
}
use qoe_test_harness.Compute.Verdict.Outcome.{gates}

module _ (fl : Float64) where
  open fl use {F, decimal}

  -- The histograms that a direction has have an edge and no more counters than edges.
  pub record DirectionCovered (d : DirectionInputs fl) : Type 0 where
    pub low_covered : (h : Histogram fl) → d.ll ≡ some h → Covered fl h
    pub classic_covered : (h : Histogram fl) → d.classic ≡ some h → Covered fl h

  module _ (fixed : ℕ → F → String) where
    eval_direction_returns :
        (name : String) (d : DirectionInputs fl) (th : Thresholds fl)
        → DirectionCovered d
        → (r : Verdict × String) × (eval_direction fl fixed name d th ≡ ok r)
    unfolding eval_direction
    eval_direction_returns name d th w = elim (Option-cases d.ll) [
      | inl n ↦ rw (n, eval_direction) (_, refl)
      | inr (low, dl) ↦ elim (Option-cases d.classic) [
        | inl n ↦ rw (dl, n, eval_direction) (_, refl)
        | inr (classic, dc) ↦
            let (p, ep) = quantile_returns fl low (decimal 99 2) (w.low_covered low dl) in
            let (q, eq) =
              quantile_returns fl classic (decimal 99 2) (w.classic_covered classic dc) in
            elim (Bool-cases (total fl low == 0 || total fl classic == 0)) [
              | inl empty ↦ rw (dl, dc, empty, eval_direction) (_, refl)
              | inr filled ↦ rw (dl, dc, filled, eval_direction) (rw (ep, eq) (_, refl))
            ]
      ]
    ]

    -- On histograms that have an edge and no more counters than edges, a run gets a report: no read is
    -- out of range, whatever the other inputs are.
    pub evaluate_returns :
        (inp : Inputs fl) (th : Thresholds fl)
        → DirectionCovered inp.down
        → DirectionCovered inp.up
        → (r : RunResult) × (evaluate fl fixed inp th ≡ ok r)
    unfolding evaluate judge
    evaluate_returns inp th down up =
        let (d, ed) = eval_direction_returns "downstream" inp.down th down in
        let (u, eu) = eval_direction_returns "upstream" inp.up th up in
        elim (gates fl fixed inp) [
          | inl clear ↦ rw (clear, evaluate) (rw (ed, eu) (_, refl))
          | inr (c, cs, raised) ↦ rw (raised, evaluate) (_, refl)
        ]
