-- ===== src/Examples/Histograms.antt =====
-- core/compute/histogram.go at concrete samples.
use qoe_test_harness.Prelude.{
  ℕ, ◌≡◌, ◌≢◌, ◌⊎◌, ◌<◌, refl, some, List, [], ◌∷◌, ok, err, ◌>>=◌, get_or, arith,
}
use qoe_test_harness.Compute.Histogram.{
  Histogram, panic, index_out_of_range, at, wrap, new_histogram, bin_search, bin_index, observe,
  total, merge, default_edges_ms, quantile, quantile_loop, interpolate, clamp_unit,
}
use qoe_test_harness.Compute.Histogram.Search.{Ascending, count_at_most, bin_of, bin_index-eq}
use qoe_test_harness.Compute.Histogram.Counts.{IsHistogram, observe_all}
use qoe_test_harness.Compute.Histogram.Merge.{merge_observed, merge_cases}
use mathlib.Core.Quot
use qoe_test_harness.Compute.Histogram.Bags.{Bag, empty, put, union, size}
use qoe_test_harness.Compute.Histogram.Refines.{
  Represents, after, after-Represents, histogram_refines,
}
use qoe_test_harness.Compute.Histogram.Bins.{Reaches, NoneBefore, Stepped, InBin}
use qoe_test_harness.Compute.Histogram.Quantile.{quantile-InBin}
use qoe_test_harness.Compute.Cdf.{CdfPoint, cdf}
use qoe_test_harness.Compute.Cdf.Shape.{Points, ordinates, last_or, cdf_climbs}
use qoe_test_harness.Examples.Fixed.{fixed, fixed-Ordered, fixed-Rounded}
open fixed use {mul, of_ℕ}

abbrev edges : List ℕ
edges = default_edges_ms fixed

edges-Ascending : Ascending fixed edges
edges-Ascending = ground arith

-- 7.5 is an edge: a sample of 7.5 ms falls into the bin that it starts.
on_an_edge : bin_index fixed edges 7500 ≡ ok 8
unfolding bin_index bin_search
on_an_edge = refl

-- Two samples of 2 ms and one of 60 ms.
abbrev samples : List ℕ
samples = 60_000 ∷ 2000 ∷ 2000 ∷ []

median_test :
    (do h ← observe_all fixed (new_histogram fixed edges) samples; quantile fixed h 500) ≡ ok 2750
unfolding observe_all new_histogram observe bin_index bin_search quantile total quantile_loop
    interpolate
median_test = refl

bin_index-eq_example : bin_index fixed edges 7499 ≡ ok 7
unfolding bin_of count_at_most
bin_index-eq_example = bin_index-eq fixed fixed-Ordered edges 7499 edges-Ascending

merge_observed_example :
    (a b c : Histogram fixed) × (observe_all fixed (new_histogram fixed edges) (2000 ∷ []) ≡ ok a)
    × (observe_all fixed (new_histogram fixed edges) samples ≡ ok b)
    × (observe_all fixed (new_histogram fixed edges) (2000 ∷ samples) ≡ ok c)
    × (merge fixed a b ≡ ok c)
merge_observed_example =
    merge_observed fixed fixed-Ordered edges (2000 ∷ []) samples edges-Ascending (omega arith) refl

merge_cases_example :
    merge fixed
      (record { edges = 0 ∷ 1000 ∷ []; counts = 3 ∷ 4 ∷ [] })
      (record { edges = 0 ∷ 1000 ∷ []; counts = 1 ∷ 1 ∷ 1 ∷ [] })
    ≡ err (panic index_out_of_range)
merge_cases_example = merge_cases fixed _ _

-- One sample in the bin of 0 ms, and two in the bin of 2 ms.
abbrev small : Histogram fixed
small = record { edges = 0 ∷ 1000 ∷ 2000 ∷ []; counts = 1 ∷ 0 ∷ 2 ∷ [] }

small-Stepped : Stepped fixed small.edges
small-Stepped = (
  record { ordered_step = refl; exact = refl; number = refl; lower_number = refl },
  (record { ordered_step = refl; exact = refl; number = refl; lower_number = refl }, tt),
)

small-total : total fixed small ≢ 0
unfolding total
small-total e = omega (arith, e)

small_median : quantile fixed small 200 ≡ ok 600
unfolding quantile quantile_loop interpolate total
small_median = refl

quantile-InBin_example :
    ((i : ℕ) × (0 < get_or small.counts i 0)
      × Reaches fixed (mul (clamp_unit fixed 200) (of_ℕ (total fixed small))) 0 small.counts i
      × NoneBefore fixed (mul (clamp_unit fixed 200) (of_ℕ (total fixed small))) 0 small.counts i
      × InBin fixed small.edges i 600)
    ⊎ (NoneBefore fixed (mul (clamp_unit fixed 200) (of_ℕ (total fixed small))) 0 small.counts 3
        × (at small.edges 2 ≡ ok 600))
quantile-InBin_example =
    quantile-InBin fixed fixed-Ordered fixed-Rounded small 200 600 small-Stepped small-total
      small_median refl

small-IsHistogram : IsHistogram fixed small
small-IsHistogram = record {
  ascending = ground arith;
  some_edge = omega arith;
  same_length = refl;
  in_range = (omega arith, (omega arith, (omega arith, tt)));
}

cdf_climbs_example :
    (pts : List (CdfPoint fixed)) × (cdf fixed small ≡ ok (some pts))
    × Points fixed small.edges 3 small.counts 0 0 pts
    × Ascending fixed (ordinates fixed pts)
    × (last_or fixed 0 (ordinates fixed pts) ≡ 1000)
cdf_climbs_example =
    cdf_climbs fixed fixed-Rounded small small-IsHistogram (omega arith) (omega arith)

abbrev some_bag : Bag ℕ
some_bag = Quot.mk samples

after_samples-Represents :
    (xs : List ℕ) → Represents fixed edges (after fixed fixed-Ordered edges xs) (Quot.mk xs)
after_samples-Represents xs =
    after-Represents fixed fixed-Ordered edges xs edges-Ascending (omega arith)

abbrev sampled : List ℕ → Histogram fixed
sampled = after fixed fixed-Ordered edges

-- A further sample of 7 ms, and another histogram of one sample of 2 ms.
histogram_refines_example :
    Represents fixed edges (new_histogram fixed edges) empty
    × ((h : Histogram fixed) × (observe fixed (sampled samples) 7000 ≡ ok h)
        × Represents fixed edges h (put 7000 some_bag))
    × ((m : Histogram fixed) × (merge fixed (sampled samples) (sampled (2000 ∷ [])) ≡ ok m)
        × Represents fixed edges m (union some_bag (Quot.mk (2000 ∷ []))))
    × (total fixed (sampled samples) ≡ wrap (size some_bag))
    × (sampled samples ≡ sampled samples)
histogram_refines_example =
    histogram_refines fixed fixed-Ordered edges (sampled samples) (sampled (2000 ∷ []))
      (sampled samples) some_bag (Quot.mk (2000 ∷ [])) 7000 edges-Ascending (omega arith) refl
      (after_samples-Represents samples) (after_samples-Represents (2000 ∷ []))
      (after_samples-Represents samples)
