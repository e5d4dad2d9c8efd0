-- ===== src/Compute/Cdf.antt =====
-- core/compute/cdf.go: the cumulative distribution of a histogram as step points.
pub mod Shape
use qoe_test_harness.Prelude.{
  ℕ, suc, ◌+◌, ◌<◌, Option, none, some, List, [], ◌∷◌, Result, ok, err, ◌>>=◌, length, ltb, ◌==◌,
  if◌then◌else◌,
}
use qoe_test_harness.Prelude.Floats.{Float64}
use qoe_test_harness.Compute.Histogram.{Fault, Histogram, at, wrap, total}

module _ (fl : Float64) where
  open fl use {F, div, of_ℕ}

  pub record CdfPoint : Type 0 where
    pub ms : F
    pub p : F

  -- The loop over the bins from `i` on. `t` is the total, `cum` what the bins before hold.
  unfoldable pub cdf_loop : List F → ℕ → List ℕ → ℕ → ℕ → Result Fault (List CdfPoint)
  cdf_loop edges t [] i cum = ok []
  cdf_loop edges t (c ∷ cs) i cum = do
    lower ← at edges i
    ms ← (if ltb (i + 1) (length edges) then at edges (i + 1) else ok lower)
    rest ← cdf_loop edges t cs (i + 1) (wrap (cum + c))
    ok (record { ms = ms; p = div (of_ℕ (wrap (cum + c))) (of_ℕ t) } ∷ rest)

  -- `none` is Go's nil slice.
  unfoldable pub cdf : Histogram fl → Result Fault (Option (List CdfPoint))
  cdf h =
      if total fl h == 0
      then ok none
      else (do points ← cdf_loop h.edges (total fl h) h.counts 0 0; ok (some points))
