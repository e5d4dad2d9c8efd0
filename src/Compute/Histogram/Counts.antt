-- ===== src/Compute/Histogram/Counts.antt =====
-- Observing samples: which counter grows, and the total.
use qoe_test_harness.Prelude.{
  ℕ, zero, suc, ◌+◌, ◌^◌, ◌<◌, ◌≡◌, refl, ◌∙◌, List, [], ◌∷◌, Result, ok, ◌>>=◌, length, get_or,
  set, replicate, ◌==◌, if◌then◌else◌, arith, All, length-set, length-replicate, get_elem?-get_or,
}
use qoe_test_harness.Prelude.Floats.{Float64, Ordered}
use qoe_test_harness.Compute.Histogram.{
  Fault, Histogram, at, wrap, new_histogram, observe, sum_from, total,
}
use qoe_test_harness.Compute.Histogram.Search.{Ascending, bin_of, count_at_most-le, bin_index-eq}

abbrev pub IsCount : ℕ → Type 0
IsCount n = n < 2 ^ 64

-- `counts[i]++`.
abbrev pub bump : List ℕ → ℕ → List ℕ
bump counts i = set counts i (wrap (get_or counts i 0 + 1))

abbrev pub sum : List ℕ → ℕ
sum [] = 0
sum (c ∷ cs) = c + sum cs

pub sum_from-eq : (t : ℕ) (cs : List ℕ) → IsCount t → sum_from t cs ≡ wrap (t + sum cs)
sum_from-eq t [] h = omega arith
sum_from-eq t (c ∷ cs) h = omega (arith, sum_from-eq (wrap (t + c)) cs)

sum-bump : (cs : List ℕ) (i : ℕ) → i < length cs → wrap (sum (bump cs i)) ≡ wrap (sum cs + 1)
sum-bump [] i h = absurd (omega arith)
sum-bump (c ∷ cs) zero h = omega arith
sum-bump (c ∷ cs) (suc i) h = omega (arith, sum-bump cs i (omega arith))

sum_from-bump :
    (cs : List ℕ) (i : ℕ) → i < length cs → sum_from 0 (bump cs i) ≡ wrap (sum_from 0 cs + 1)
sum_from-bump cs i h = omega (
  arith,
  sum_from-eq 0 (bump cs i) (omega arith),
  sum_from-eq 0 cs (omega arith),
  sum-bump cs i h,
)

at-inside : (cs : List ℕ) (i : ℕ) → i < length cs → at cs i ≡ ok (get_or cs i 0)
at-inside cs i h = rw (get_elem?-get_or cs i 0 h, at) refl

bump-IsCount : (cs : List ℕ) (i : ℕ) → All IsCount cs → All IsCount (bump cs i)
bump-IsCount [] i h = tt
bump-IsCount (c ∷ cs) zero h = (omega arith, h.1)
bump-IsCount (c ∷ cs) (suc i) h = (h.0, bump-IsCount cs i h.1)

get_or-IsCount : (cs : List ℕ) (i : ℕ) → All IsCount cs → IsCount (get_or cs i 0)
get_or-IsCount [] i h = omega arith
get_or-IsCount (c ∷ cs) zero h = h.0
get_or-IsCount (c ∷ cs) (suc i) h = get_or-IsCount cs i h.1

pub get_or-bump :
    (cs : List ℕ) (i j : ℕ)
    → i < length cs
    → get_or (bump cs i) j 0 ≡ (if i == j then wrap (get_or cs j 0 + 1) else get_or cs j 0)
get_or-bump [] i j h = absurd (omega arith)
get_or-bump (c ∷ cs) zero zero h = refl
get_or-bump (c ∷ cs) zero (suc j) h = ground arith
get_or-bump (c ∷ cs) (suc i) zero h = ground arith
get_or-bump (c ∷ cs) (suc i) (suc j) h = ground (arith, get_or-bump cs i j (omega arith))

zeros-IsCount : (n : ℕ) → All IsCount (replicate n 0)
zeros-IsCount zero = tt
zeros-IsCount (suc n) = (omega arith, zeros-IsCount n)

sum_from-zeros : (n : ℕ) → sum_from 0 (replicate n 0) ≡ 0
sum_from-zeros zero = refl
sum_from-zeros (suc n) = sum_from-zeros n

module _ (fl : Float64) where
  open fl use {F, le}

  -- Ascending edges, one counter for each, and no counter out of the range of a uint64.
  pub record IsHistogram (h : Histogram fl) : Type 0 where
    pub ascending : Ascending fl h.edges
    pub some_edge : 0 < length h.edges
    pub same_length : length h.counts ≡ length h.edges
    pub in_range : All IsCount h.counts

  -- `for _, s := range samples { h.Observe(s) }`
  unfoldable pub observe_all : Histogram fl → List F → Result Fault (Histogram fl)
  observe_all h [] = ok h
  observe_all h (x ∷ xs) = do h' ← observe fl h x; observe_all h' xs

  -- How many samples fall into bin `i`.
  unfoldable pub occurrences : List F → ℕ → List F → ℕ
  occurrences edges i [] = 0
  occurrences edges i (x ∷ xs) =
      let rest = occurrences edges i xs in if bin_of fl edges x == i then suc rest else rest

  -- The counters after `xs`, when no observation panics.
  abbrev pub counts_after : List F → List ℕ → List F → List ℕ
  counts_after edges counts [] = counts
  counts_after edges counts (x ∷ xs) = counts_after edges (bump counts (bin_of fl edges x)) xs

  pub bin_of-lt : (edges : List F) (v : F) → 0 < length edges → bin_of fl edges v < length edges
  unfolding bin_of
  bin_of-lt edges v h = ground (arith, count_at_most-le fl edges v)

  pub counts_after-length :
      (edges : List F) (counts : List ℕ) (xs : List F)
      → length (counts_after edges counts xs) ≡ length counts
  counts_after-length edges counts [] = refl
  counts_after-length edges counts (x ∷ xs) =
      counts_after-length edges (bump counts (bin_of fl edges x)) xs
      ∙ length-set counts (bin_of fl edges x) _

  module _ (ordered : Ordered fl) where
    pub bump-IsHistogram :
        (h : Histogram fl) (v : F)
        → IsHistogram h
        → IsHistogram (record h { counts = bump h.counts (bin_of fl h.edges v) })
    bump-IsHistogram h v w = record {
      ascending = w.ascending;
      some_edge = w.some_edge;
      same_length = length-set h.counts (bin_of fl h.edges v) _ ∙ w.same_length;
      in_range = bump-IsCount h.counts (bin_of fl h.edges v) w.in_range;
    }

    pub observe-eq :
        (h : Histogram fl) (v : F)
        → IsHistogram h
        → observe fl h v ≡ ok (record h { counts = bump h.counts (bin_of fl h.edges v) })
    unfolding observe
    observe-eq h v w = rw (bin_index-eq fl ordered h.edges v w.ascending) (
        rw
          (at-inside h.counts (bin_of fl h.edges v)
            (omega (arith, w.same_length, bin_of-lt h.edges v w.some_edge)))
          refl)

    pub counts_after-IsHistogram :
        (h : Histogram fl) (xs : List F)
        → IsHistogram h
        → IsHistogram (record h { counts = counts_after h.edges h.counts xs })
    counts_after-IsHistogram h [] w = w
    counts_after-IsHistogram h (x ∷ xs) w =
        counts_after-IsHistogram (record h { counts = bump h.counts (bin_of fl h.edges x) }) xs
          (bump-IsHistogram h x w)

    pub observe_all-eq :
        (h : Histogram fl) (xs : List F)
        → IsHistogram h
        → observe_all h xs ≡ ok (record h { counts = counts_after h.edges h.counts xs })
    unfolding observe_all
    observe_all-eq h [] w = refl
    observe_all-eq h (x ∷ xs) w = rw (observe-eq h x w) (
        observe_all-eq (record h { counts = bump h.counts (bin_of fl h.edges x) }) xs
          (bump-IsHistogram h x w))

    pub get_or-counts_after :
        (h : Histogram fl) (xs : List F) (i : ℕ)
        → IsHistogram h
        → get_or (counts_after h.edges h.counts xs) i 0
          ≡ wrap (get_or h.counts i 0 + occurrences h.edges i xs)
    unfolding occurrences
    get_or-counts_after h [] i w = omega (arith, get_or-IsCount h.counts i w.in_range)
    get_or-counts_after h (x ∷ xs) i w =
        let inside : bin_of fl h.edges x < length h.counts =
          omega (arith, w.same_length, bin_of-lt h.edges x w.some_edge) in
        ground (
          arith,
          get_or-bump h.counts (bin_of fl h.edges x) i inside,
          get_or-counts_after (record h { counts = bump h.counts (bin_of fl h.edges x) }) xs i
              (bump-IsHistogram h x w),
        )

    pub total-counts_after :
        (h : Histogram fl) (xs : List F)
        → IsHistogram h
        → sum_from 0 (counts_after h.edges h.counts xs) ≡ wrap (sum_from 0 h.counts + length xs)
    total-counts_after h [] w = omega (arith, sum_from-eq 0 h.counts (omega arith))
    total-counts_after h (x ∷ xs) w =
        let inside : bin_of fl h.edges x < length h.counts =
          omega (arith, w.same_length, bin_of-lt h.edges x w.some_edge) in
        omega (
          arith,
          sum_from-bump h.counts (bin_of fl h.edges x) inside,
          total-counts_after (record h { counts = bump h.counts (bin_of fl h.edges x) }) xs
              (bump-IsHistogram h x w),
        )

    -- On a well-formed histogram observing a list of samples does not panic. The result is well
    -- formed over the same edges, the counter of each bin has grown by the samples whose last edge
    -- at most the sample is the bin's, and the total by the number of samples, both modulo 2^64.
    pub observe_all_counts :
        (h : Histogram fl) (xs : List F)
        → IsHistogram h
        → (h' : Histogram fl) × (observe_all h xs ≡ ok h')
          × IsHistogram h'
          × (h'.edges ≡ h.edges)
          × ((i : ℕ) → get_or h'.counts i 0 ≡ wrap (get_or h.counts i 0 + occurrences h.edges i xs))
          × (total fl h' ≡ wrap (total fl h + length xs))
    unfolding total
    observe_all_counts h xs w = (
      record h { counts = counts_after h.edges h.counts xs },
      observe_all-eq h xs w,
      counts_after-IsHistogram h xs w,
      refl,
      λ i. get_or-counts_after h xs i w,
      total-counts_after h xs w,
    )

  -- A new histogram is well formed and empty.
  pub new_histogram-IsHistogram :
      (edges : List F)
      → Ascending fl edges
      → 0 < length edges
      → IsHistogram (new_histogram fl edges) × (total fl (new_histogram fl edges) ≡ 0)
  unfolding new_histogram total
  new_histogram-IsHistogram edges asc n = (
    record {
      ascending = asc;
      some_edge = n;
      same_length = length-replicate (length edges) 0;
      in_range = zeros-IsCount (length edges);
    },
    sum_from-zeros (length edges),
  )
