-- ===== src/Compute/Histogram/Refines.antt =====
-- Histograms against bags of samples.
use mathlib.Core.Quot
use mathlib.Core.Quot.{Quot, Quot-set}
use native.Mathlib.Nat.{zero-add}
use qoe_test_harness.Prelude.{
  ℕ, zero, suc, ◌+◌, ◌<◌, ◌≡◌, refl, sym, subst, ap, ap₂, ◌∙◌, true, List, [], ◌∷◌, ok, length,
  get_or, replicate, arith, All, length-set,
}
use qoe_test_harness.Prelude.Floats.{Float64, Ordered}
use qoe_test_harness.Compute.Histogram.{
  Histogram, wrap, new_histogram, observe, sum_from, total, merge, equal_edges,
}
use qoe_test_harness.Compute.Histogram.Search.{Ascending, bin_of}
use qoe_test_harness.Compute.Histogram.Counts.{
  IsCount, IsHistogram, occurrences, bump, bin_of-lt, get_or-bump, bump-IsHistogram, observe-eq,
  counts_after, get_or-counts_after, counts_after-IsHistogram, total-counts_after,
  new_histogram-IsHistogram,
}
use qoe_test_harness.Compute.Histogram.Merge.{added, length-added, merge-same}
use qoe_test_harness.Compute.Histogram.Bags.{
  Bag, empty, put, union, size, in_bin, in_bin-put, in_bin-union,
}

-- Lists that agree at each index.
get_or-ext :
    (xs ys : List ℕ)
    → length xs ≡ length ys
    → ((i : ℕ) → i < length xs → get_or xs i 0 ≡ get_or ys i 0)
    → xs ≡ ys
get_or-ext [] [] n h = refl
get_or-ext [] (y ∷ ys) n h = absurd (omega arith)
get_or-ext (x ∷ xs) [] n h = absurd (omega arith)
get_or-ext (x ∷ xs) (y ∷ ys) n h =
    ap₂ (λ z zs. z ∷ zs) (h 0 (omega arith))
      (get_or-ext xs ys (omega arith) (λ i l. h (suc i) (omega arith)))

get_or-added :
    (xs cs : List ℕ) (i : ℕ)
    → length xs ≡ length cs
    → i < length xs
    → get_or (added xs cs) i 0 ≡ wrap (get_or xs i 0 + get_or cs i 0)
get_or-added [] cs i n h = absurd (omega arith)
get_or-added (x ∷ xs) [] i n h = absurd (omega arith)
get_or-added (x ∷ xs) (c ∷ cs) zero n h = refl
get_or-added (x ∷ xs) (c ∷ cs) (suc i) n h = get_or-added xs cs i (omega arith) (omega arith)

added-IsCount : (xs cs : List ℕ) → length xs ≡ length cs → All IsCount (added xs cs)
added-IsCount [] [] n = tt
added-IsCount [] (c ∷ cs) n = absurd (omega arith)
added-IsCount (x ∷ xs) [] n = absurd (omega arith)
added-IsCount (x ∷ xs) (c ∷ cs) n = (omega arith, added-IsCount xs cs (omega arith))

get_or-zeros : (n i : ℕ) → get_or {A = ℕ} (replicate n 0) i 0 ≡ 0
get_or-zeros zero i = refl
get_or-zeros (suc n) zero = refl
get_or-zeros (suc n) (suc i) = get_or-zeros n i

module _ (fl : Float64) (edges : List fl.F) where
  open fl use {F}

  -- A histogram over the edges has counted the samples of the bag, each bin modulo 2^64.
  pub record Represents (h : Histogram fl) (b : Bag F) : Type 0 where
    pub well_formed : IsHistogram fl h
    pub same_edges : h.edges ≡ edges
    pub counted : (i : ℕ) → i < length h.counts → get_or h.counts i 0 ≡ wrap (in_bin fl edges i b)

module _ (fl : Float64) (ordered : Ordered fl) (edges : List fl.F) where
  open fl use {F}

  number : (h : Histogram fl) (b : Bag F) → Represents fl edges h b → length h.counts ≡ length edges
  number h b r = r.well_formed.same_length ∙ ap length r.same_edges

  new_histogram-Represents :
      Ascending fl edges → 0 < length edges → Represents fl edges (new_histogram fl edges) empty
  unfolding new_histogram in_bin occurrences
  new_histogram-Represents asc n = record {
    well_formed = (new_histogram-IsHistogram fl edges asc n).0;
    same_edges = refl;
    counted = λ i l. get_or-zeros (length edges) i;
  }

  observe-Represents :
      (h : Histogram fl) (b : Bag F) (v : F)
      → Represents fl edges h b
      → (h' : Histogram fl) × (observe fl h v ≡ ok h') × Represents fl edges h' (put v b)
  observe-Represents h b v r =
      let i = bin_of fl h.edges v in
      let w = r.well_formed in
      (
        record h { counts = bump h.counts i },
        observe-eq fl ordered h v w,
        record {
          well_formed = bump-IsHistogram fl ordered h v w;
          same_edges = r.same_edges;
          counted = λ j l.
              let at_edges = ap (λ e. bin_of fl e v) r.same_edges in
              let inside : i < length h.counts =
                omega (arith, w.same_length, bin_of-lt fl h.edges v w.some_edge) in
              let before = r.counted j (omega (arith, length-set h.counts i _)) in
              ground (
                arith,
                at_edges,
                before,
                get_or-bump h.counts i j inside,
                in_bin-put fl edges j v b,
              );
        },
      )

  merge-Represents :
      (h k : Histogram fl) (b c : Bag F)
      → equal_edges fl edges edges ≡ true
      → Represents fl edges h b
      → Represents fl edges k c
      → (m : Histogram fl) × (merge fl h k ≡ ok m) × Represents fl edges m (union b c)
  merge-Represents h k b c same r q =
      let n : length h.counts ≡ length k.counts = number h b r ∙ sym (number k c q) in
      (
        record h { counts = added h.counts k.counts },
        merge-same fl h k (rw (r.same_edges, q.same_edges) same) (omega (arith, n)),
        record {
          well_formed = record {
            ascending = r.well_formed.ascending;
            some_edge = r.well_formed.some_edge;
            same_length = length-added h.counts k.counts ∙ r.well_formed.same_length;
            in_range = added-IsCount h.counts k.counts n;
          };
          same_edges = r.same_edges;
          counted = λ i l.
              let inside : i < length h.counts = omega (arith, length-added h.counts k.counts) in
              omega (
                arith,
                get_or-added h.counts k.counts i n inside,
                r.counted i inside,
                q.counted i (omega arith),
                in_bin-union fl edges i b c,
              );
        },
      )

  -- The bag and the edges determine the histogram.
  same_counts :
      (h k : Histogram fl) (b : Bag F)
      → Represents fl edges h b
      → Represents fl edges k b
      → h.counts ≡ k.counts
  same_counts h k b r q =
      let n : length h.counts ≡ length k.counts = number h b r ∙ sym (number k b q) in
      get_or-ext h.counts k.counts n (λ i l. r.counted i l ∙ sym (q.counted i (omega (arith, n))))

  -- The histogram of a list of samples.
  abbrev pub after : List F → Histogram fl
  after xs = record {
    edges = edges;
    counts = counts_after fl edges (replicate (length edges) 0) xs;
  }

  pub after-Represents :
      (xs : List F)
      → Ascending fl edges
      → 0 < length edges
      → Represents fl edges (after xs) (Quot.mk xs)
  unfolding in_bin new_histogram
  after-Represents xs asc n =
      let w = (new_histogram-IsHistogram fl edges asc n).0 in
      record {
        well_formed = counts_after-IsHistogram fl ordered (new_histogram fl edges) xs w;
        same_edges = refl;
        counted = λ i l. omega (
          arith,
          get_or-zeros (length edges) i,
          get_or-counts_after fl ordered (new_histogram fl edges) xs i w,
        );
      }

  total-Represents :
      (h : Histogram fl) (b : Bag F) → Represents fl edges h b → total fl h ≡ wrap (size b)
  unfolding total size new_histogram
  total-Represents h b =
      Quot.ind {β = λ b. Represents fl edges h b → total fl h ≡ wrap (size b)} (λ b. hlevel)
        (λ xs r.
          let asc = subst (Ascending fl) r.same_edges r.well_formed.ascending in
          let some = subst (λ e. 0 < length e) r.same_edges r.well_formed.some_edge in
          let k = after xs in
          ap (sum_from 0) (same_counts h k (Quot.mk xs) r (after-Represents xs asc some))
          ∙ total-counts_after fl ordered (new_histogram fl edges) xs
              (new_histogram-IsHistogram fl edges asc some).0
          ∙ ap (λ n. wrap (n + length xs)) (new_histogram-IsHistogram fl edges asc some).1
          ∙ ap wrap (zero-add (length xs)))
        b

  -- Over ascending edges, none of them NaN, histograms refine bags of samples: a new one stands for the empty bag, observing for
  -- putting a sample in, merging for the union, and the total for the size modulo 2^64; none of this panics. Two histograms
  -- that stand for one bag are equal, so that the order of observing and merging leaves no trace.
  pub histogram_refines :
      (h k twin : Histogram fl) (b c : Bag F) (v : F)
      → Ascending fl edges
      → 0 < length edges
      → equal_edges fl edges edges ≡ true
      → Represents fl edges h b
      → Represents fl edges k c
      → Represents fl edges twin b
      → Represents fl edges (new_histogram fl edges) empty
        × ((h' : Histogram fl) × (observe fl h v ≡ ok h') × Represents fl edges h' (put v b))
        × ((m : Histogram fl) × (merge fl h k ≡ ok m) × Represents fl edges m (union b c))
        × (total fl h ≡ wrap (size b))
        × (h ≡ twin)
  histogram_refines h k twin b c v asc n same r q t = (
    new_histogram-Represents asc n,
    observe-Represents h b v r,
    merge-Represents h k b c same r q,
    total-Represents h b r,
    ap₂ (λ e cs. record { edges = e; counts = cs }) (r.same_edges ∙ sym t.same_edges)
        (same_counts h twin b r t),
  )
