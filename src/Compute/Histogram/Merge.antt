-- ===== src/Compute/Histogram/Merge.antt =====
-- `merge` on every pair of histograms, and that merging is observing together.
use qoe_test_harness.Prelude.{
  ℕ, zero, suc, ◌+◌, ◌<◌, ◌≤◌, ◌≡◌, refl, sym, ap, ap₂, ◌∙◌, true, not, List, [], ◌∷◌, ◌++◌, ok,
  err, length, replicate, leb, if◌then◌else◌, arith, All, length-set, length-replicate, le→leb,
}
use qoe_test_harness.Prelude.Floats.{Float64, Ordered}
use qoe_test_harness.Compute.Histogram.{
  index_out_of_range, edges_mismatch, panic, Histogram, wrap, new_histogram, add_counts,
  equal_edges, merge,
}
use qoe_test_harness.Compute.Histogram.Search.{Ascending, bin_of}
use qoe_test_harness.Compute.Histogram.Counts.{
  IsCount, bump, bin_of-lt, counts_after-length, counts_after-IsHistogram, observe_all,
  counts_after, observe_all-eq, new_histogram-IsHistogram,
}

-- Counter by counter, the longer list's rest unchanged.
abbrev pub added : List ℕ → List ℕ → List ℕ
added xs [] = xs
added [] (c ∷ cs) = []
added (x ∷ xs) (c ∷ cs) = wrap (x + c) ∷ added xs cs

pub add_counts-eq :
    (xs cs : List ℕ)
    → add_counts xs cs
      ≡ (if leb (length cs) (length xs) then ok (added xs cs) else err index_out_of_range)
add_counts-eq [] [] = refl
add_counts-eq (x ∷ xs) [] = ground arith
add_counts-eq [] (c ∷ cs) = ground arith
add_counts-eq (x ∷ xs) (c ∷ cs) = ground (arith, add_counts-eq xs cs)

added-bump :
    (xs cs : List ℕ) (i : ℕ)
    → i < length cs
    → length xs ≡ length cs
    → added xs (bump cs i) ≡ bump (added xs cs) i
added-bump [] [] i h n = absurd (omega arith)
added-bump [] (c ∷ cs) i h n = absurd (omega arith)
added-bump (x ∷ xs) [] i h n = absurd (omega arith)
added-bump (x ∷ xs) (c ∷ cs) zero h n = ap (λ y. y ∷ added xs cs) (omega arith)
added-bump (x ∷ xs) (c ∷ cs) (suc i) h n =
    ap (λ t. wrap (x + c) ∷ t) (added-bump xs cs i (omega arith) (omega arith))

added-zeros : (xs : List ℕ) (n : ℕ) → All IsCount xs → length xs ≡ n → added xs (replicate n 0) ≡ xs
added-zeros [] zero h e = refl
added-zeros [] (suc n) h e = absurd (omega arith)
added-zeros (x ∷ xs) zero h e = absurd (omega arith)
added-zeros (x ∷ xs) (suc n) (hx, hs) e =
    ap₂ (λ y ys. y ∷ ys) (omega arith) (added-zeros xs n hs (omega arith))

pub length-added : (xs cs : List ℕ) → length (added xs cs) ≡ length xs
length-added [] [] = refl
length-added (x ∷ xs) [] = refl
length-added [] (c ∷ cs) = refl
length-added (x ∷ xs) (c ∷ cs) = ap suc (length-added xs cs)

module _ (fl : Float64) where
  open fl use {F, le, eq}

  -- `merge` on every branch: different edges are refused, as many counters as the receiver has are
  -- added modulo 2^64 with the edges kept, and more counters than that are a panic.
  pub merge_cases :
      (h other : Histogram fl)
      → merge fl h other ≡ (
          if not (equal_edges fl h.edges other.edges)
          then err edges_mismatch
          else if leb (length other.counts) (length h.counts)
          then ok (record h { counts = added h.counts other.counts })
          else err (panic index_out_of_range))
  unfolding merge
  merge_cases h other = ground (arith, add_counts-eq h.counts other.counts)

  pub merge-same :
      (h other : Histogram fl)
      → equal_edges fl h.edges other.edges ≡ true
      → length other.counts ≤ length h.counts
      → merge fl h other ≡ ok (record h { counts = added h.counts other.counts })
  merge-same h other e n =
      merge_cases h other ∙ rw e (rw (le→leb (length other.counts) (length h.counts) n) refl)

  module _ (ordered : Ordered fl) (edges : List F) where
    added-counts_after :
        (xs cs : List ℕ) (ys : List F)
        → 0 < length edges
        → length cs ≡ length edges
        → length xs ≡ length cs
        → added xs (counts_after fl edges cs ys) ≡ counts_after fl edges (added xs cs) ys
    added-counts_after xs cs [] p n m = refl
    added-counts_after xs cs (y ∷ ys) p n m =
        let i = bin_of fl edges y in
        let inside : i < length cs = omega (arith, bin_of-lt fl edges y p) in
        added-counts_after xs (bump cs i) ys p (length-set cs i _ ∙ n) (m ∙ sym (length-set cs i _))
        ∙ ap (λ a. counts_after fl edges a ys) (added-bump xs cs i inside m)

    counts_after-append :
        (cs : List ℕ) (xs ys : List F)
        → counts_after fl edges (counts_after fl edges cs xs) ys
          ≡ counts_after fl edges cs (xs ++ ys)
    counts_after-append cs [] ys = refl
    counts_after-append cs (x ∷ xs) ys = counts_after-append (bump cs (bin_of fl edges x)) xs ys

    length_after :
        (xs : List F)
        → length (counts_after fl edges (replicate (length edges) 0) xs) ≡ length edges
    length_after xs = counts_after-length fl edges _ xs ∙ length-replicate (length edges) 0

    added_after :
        (xs ys : List F)
        → Ascending fl edges
        → 0 < length edges
        → added
            (counts_after fl edges (replicate (length edges) 0) xs)
            (counts_after fl edges (replicate (length edges) 0) ys)
          ≡ counts_after fl edges (replicate (length edges) 0) (xs ++ ys)
    unfolding new_histogram
    added_after xs ys asc p =
        let zeros = replicate (length edges) 0 in
        let w = (new_histogram-IsHistogram fl edges asc p).0 in
        let v = counts_after-IsHistogram fl ordered (new_histogram fl edges) xs w in
        added-counts_after (counts_after fl edges zeros xs) zeros ys p
          (length-replicate (length edges) 0)
          (length_after xs ∙ sym (length-replicate (length edges) 0))
        ∙ ap (λ k. counts_after fl edges k ys)
            (added-zeros (counts_after fl edges zeros xs) (length edges) v.in_range
              (length_after xs))
        ∙ counts_after-append zeros xs ys

    -- Two testers' histograms over the same ascending edges, none of them NaN, merge to the
    -- histogram of all their samples.
    pub merge_observed :
        (xs ys : List F)
        → Ascending fl edges
        → 0 < length edges
        → equal_edges fl edges edges ≡ true
        → (a b c : Histogram fl) × (observe_all fl (new_histogram fl edges) xs ≡ ok a)
          × (observe_all fl (new_histogram fl edges) ys ≡ ok b)
          × (observe_all fl (new_histogram fl edges) (xs ++ ys) ≡ ok c)
          × (merge fl a b ≡ ok c)
    unfolding new_histogram
    merge_observed xs ys asc p same =
        let zeros = replicate (length edges) 0 in
        let w = (new_histogram-IsHistogram fl edges asc p).0 in
        let h = new_histogram fl edges in
        let a : Histogram fl = record { edges = edges; counts = counts_after fl edges zeros xs } in
        let b : Histogram fl = record { edges = edges; counts = counts_after fl edges zeros ys } in
        let c : Histogram fl = record {
          edges = edges;
          counts = counts_after fl edges zeros (xs ++ ys);
        } in
        (
          a,
          b,
          c,
          observe_all-eq fl ordered h xs w,
          observe_all-eq fl ordered h ys w,
          observe_all-eq fl ordered h (xs ++ ys) w,
          merge-same a b same (omega (arith, length_after xs, length_after ys))
              ∙ ap (λ k. ok (record { edges = edges; counts = k })) (added_after xs ys asc p),
        )
