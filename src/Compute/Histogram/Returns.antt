-- ===== src/Compute/Histogram/Returns.antt =====
-- No read of `quantile` is out of range.
use qoe_test_harness.Prelude.{
  ℕ, ◌+◌, ◌-◌, ◌<◌, ◌≤◌, ◌≡◌, refl, List, [], ◌∷◌, Result, ok, length, ◌==◌, arith, if-each,
}
use qoe_test_harness.Prelude.Floats.{Float64, zero_f}
use qoe_test_harness.Compute.Histogram.{
  Fault, Histogram, total, interpolate, quantile_loop, quantile,
}
use qoe_test_harness.Compute.Histogram.Search.{at_inside}

module _ (fl : Float64) where
  open fl use {F, add, mul, le, of_ℕ}

  -- There is an edge, and no more counters than edges.
  pub record Covered (h : Histogram fl) : Type 0 where
    pub some_edge : 0 < length h.edges
    pub enough_edges : length h.counts ≤ length h.edges

  Returns : Result Fault F → Type 0
  Returns r = (q : F) × (r ≡ ok q)

  interpolate-Returns :
      (edges : List F) (i c : ℕ) (target prev : F)
      → i < length edges
      → Returns (interpolate fl edges i c target prev)
  unfolding interpolate Returns
  interpolate-Returns edges i c target prev h =
      let (lo, l) = at_inside edges i h in
      rw (l, interpolate)
        (if-each Returns (i == length edges - 1) (λ last. (lo, refl))
          (λ inner. let (hi, u) = at_inside edges (i + 1) (ground arith) in rw u (_, refl)))

  quantile_loop-Returns :
      (edges : List F) (target : F) (cs : List ℕ) (i : ℕ) (cum : F)
      → 0 < length edges
      → i + length cs ≤ length edges
      → Returns (quantile_loop fl edges target cs i cum)
  unfolding quantile_loop Returns
  quantile_loop-Returns edges target [] i cum p h = at_inside edges (length edges - 1) (omega arith)
  quantile_loop-Returns edges target (c ∷ cs) i cum p h =
      if-each Returns (c == 0)
        (λ empty. quantile_loop-Returns edges target cs (i + 1) cum p (omega arith))
        (λ filled.
          if-each Returns (le target (add cum (of_ℕ c)))
            (λ reached. interpolate-Returns edges i c target cum (omega arith))
            (λ short.
              quantile_loop-Returns edges target cs (i + 1) (add cum (of_ℕ c)) p (omega arith)))

  -- A quantile of a histogram with an edge and no more counters than edges does not panic.
  pub quantile_returns : (h : Histogram fl) (p : F) → Covered h → (q : F) × (quantile fl h p ≡ ok q)
  unfolding quantile Returns
  quantile_returns h p w =
      if-each Returns (total fl h == 0) (λ empty. (zero_f fl, refl))
        (λ filled.
          quantile_loop-Returns h.edges _ h.counts 0 (zero_f fl) w.some_edge
            (omega (arith, w.enough_edges)))
