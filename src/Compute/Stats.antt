-- ===== src/Compute/Stats.antt =====
-- core/compute/stats.go: the idle baseline and the latency above it. `sorted` is sort.Float64s.
use qoe_test_harness.Prelude.{
  ℕ, ◌+◌, ◌-◌, ◌<◌, ◌≡◌, refl, true, false, List, Result, ok, err, ◌>>=◌, length, ltb, ◌==◌,
  if◌then◌else◌, if-each, arith,
}
use qoe_test_harness.Prelude.Floats.{Float64, zero_f, one_f}
use qoe_test_harness.Compute.Histogram.{Fault, index_out_of_range, at}
use qoe_test_harness.Compute.Histogram.Search.{at_inside}

module _ (fl : Float64) where
  open fl use {F, add, sub, mul, le, lt, of_ℕ, truncate}

  -- The percentile of sorted samples, of which there are `n`, for a `p` that is not at most 0 and not at
  -- least 1: between 0 and 1, or NaN. For NaN int(idx) is left to the implementation; on amd64 it is
  -- negative, and reading there panics.
  unfoldable pub between_ranks : List F → ℕ → F → Result Fault F
  between_ranks s n p =
      let idx = mul p (of_ℕ (n - 1)) in
      let lo = truncate idx in
      let read =
        if ltb (lo + 1) n
        then (do a ← at s lo; b ← at s (lo + 1); ok (add a (mul (sub idx (of_ℕ lo)) (sub b a))))
        else at s lo in
      if le (zero_f fl) idx then read else err index_out_of_range

  unfoldable pub base_rtt : (List F → List F) → List F → F → Result Fault F
  base_rtt sorted samples_ms p =
      let n = length samples_ms in
      let s = sorted samples_ms in
      if n == 0
      then ok (zero_f fl)
      else if le p (zero_f fl)
      then at s 0
      else if le (one_f fl) p
      then at s (n - 1)
      else between_ranks s n p

  unfoldable pub working_delta : F → F → F
  working_delta rtt_ms base_rtt_ms =
      let d = sub rtt_ms base_rtt_ms in if lt (zero_f fl) d then d else zero_f fl

  Returns : Result Fault F → Type 0
  Returns r = (q : F) × (r ≡ ok q)

  between_ranks-Returns :
      (s : List F) (n : ℕ) (p : F)
      → length s ≡ n
      → (le (zero_f fl) (mul p (of_ℕ (n - 1))) ≡ true) × (truncate (mul p (of_ℕ (n - 1))) < n)
      → Returns (between_ranks s n p)
  unfolding between_ranks Returns
  between_ranks-Returns s n p e (above, b) =
      let (a, ea) = at_inside s (truncate (mul p (of_ℕ (n - 1)))) (omega (arith, e, b)) in
      rw above (
        if-each Returns (ltb (truncate (mul p (of_ℕ (n - 1))) + 1) n)
          (λ inner.
            let (c, ec) = at_inside s (truncate (mul p (of_ℕ (n - 1))) + 1) (ground (arith, e)) in
            rw ea (rw ec (_, refl)))
          (λ last. (a, ea)))

  -- When the sort keeps the number of samples, and unless p is at most 0 or at least 1 the product
  -- p * (n - 1) is not negative and truncated to a number below n, `base_rtt` returns a value: no read
  -- is out of range.
  pub base_rtt_returns :
      (sorted : List F → List F) (samples_ms : List F) (p : F)
      → length (sorted samples_ms) ≡ length samples_ms
      → (le p (zero_f fl) ≡ false
          → le (one_f fl) p ≡ false
          → 0 < length samples_ms
          → (le (zero_f fl) (mul p (of_ℕ (length samples_ms - 1))) ≡ true)
            × (truncate (mul p (of_ℕ (length samples_ms - 1))) < length samples_ms))
      → (q : F) × (base_rtt sorted samples_ms p ≡ ok q)
  unfolding base_rtt Returns
  base_rtt_returns sorted samples_ms p e b =
      if-each Returns (length samples_ms == 0) (λ empty. (zero_f fl, refl))
        (λ filled.
          if-each Returns (le p (zero_f fl))
            (λ low. at_inside (sorted samples_ms) 0 (ground (arith, e)))
            (λ above.
              if-each Returns (le (one_f fl) p)
                (λ high. at_inside (sorted samples_ms) (length samples_ms - 1) (ground (arith, e)))
                (λ below.
                  between_ranks-Returns (sorted samples_ms) (length samples_ms) p e
                    (b above below (ground arith)))))
