-- ===== src/Dashboard/Cohort.antt =====
-- The merged histograms of a cohort are those of all its samples.
use qoe_test_harness.Prelude.{
  ◌≡◌, refl, sym, ◌∙◌, true, Option, none, some, List, [], ◌∷◌, ◌++◌, append-nil, append_assoc, ok,
  ok-injective, arith,
}
use qoe_test_harness.Prelude.Floats.{Float64, Ordered}
use qoe_test_harness.Compute.Histogram.{
  Histogram, default_edges_ms, new_default_histogram, equal_edges, merge,
}
use qoe_test_harness.Compute.Histogram.Search.{Ascending}
use qoe_test_harness.Compute.Histogram.Counts.{observe_all}
use qoe_test_harness.Compute.Histogram.Merge.{merge_observed}
use qoe_test_harness.Report.{RunReport}
use qoe_test_harness.Dashboard.{merge_into, merge_runs}

module _ (fl : Float64) where
  open fl use {F, le}

  -- The histograms that `pick` takes from the runs are those of the samples, run by run; a run may
  -- have none.
  pub data Observed (pick : RunReport fl → Option (Histogram fl))
      : List (RunReport fl) → List F → Type 0 where
    no_runs : Observed pick [] []
    without :
        {r : RunReport fl} {rs : List (RunReport fl)} {xs : List F}
        → pick r ≡ none
        → Observed pick rs xs
        → Observed pick (r ∷ rs) xs
    with_samples :
        {r : RunReport fl} {rs : List (RunReport fl)} {xs : List F} (h : Histogram fl) (ys : List F)
        → pick r ≡ some h
        → observe_all fl (new_default_histogram fl) ys ≡ ok h
        → Observed pick rs xs
        → Observed pick (r ∷ rs) (ys ++ xs)

  module _ (ordered : Ordered fl) (asc : Ascending fl (default_edges_ms fl))
      (self : equal_edges fl (default_edges_ms fl) (default_edges_ms fl) ≡ true) where
    merge_samples :
        (a b : Histogram fl) (xs ys : List F)
        → observe_all fl (new_default_histogram fl) xs ≡ ok a
        → observe_all fl (new_default_histogram fl) ys ≡ ok b
        → (c : Histogram fl) × (merge fl a b ≡ ok c)
          × (observe_all fl (new_default_histogram fl) (xs ++ ys) ≡ ok c)
    unfolding new_default_histogram
    merge_samples a b xs ys ea eb =
        let (a', b', c, pa, pb, pc, m) =
          merge_observed fl ordered (default_edges_ms fl) xs ys asc (omega arith) self in
        let sa : a ≡ a' = ok-injective a a' (sym ea ∙ pa) in
        let sb : b ≡ b' = ok-injective b b' (sym eb ∙ pb) in (c, rw (sa, sb) m, pc)

    -- One step of the loop for one of the two histograms.
    step_samples :
        (pick : RunReport fl → Option (Histogram fl)) (acc : Histogram fl) (zs : List F)
        (r : RunReport fl) (rs : List (RunReport fl)) (xs : List F)
        → observe_all fl (new_default_histogram fl) zs ≡ ok acc
        → Observed pick (r ∷ rs) xs
        → (acc' : Histogram fl) × (ys : List F) × (rest : List F) × (merge_into fl acc (pick r)
            ≡ ok acc')
          × (observe_all fl (new_default_histogram fl) (zs ++ ys) ≡ ok acc')
          × Observed pick rs rest
          × (xs ≡ ys ++ rest)
    unfolding merge_into
    step_samples pick acc zs r rs xs e (without n o) =
        (acc, [], xs, rw (n, merge_into) refl, rw (append-nil zs) e, o, refl)
    step_samples pick acc zs r rs xs e (with_samples {xs = rest} h ys p q o) =
        let (c, m, both) = merge_samples acc h zs ys e q in
        (c, ys, rest, rw (p, merge_into) (rw (m, merge_into) refl), both, o, refl)

    merge_runs-from :
        (runs : List (RunReport fl)) (ll cl : Histogram fl) (ls cs xs ys : List F)
        → observe_all fl (new_default_histogram fl) ls ≡ ok ll
        → observe_all fl (new_default_histogram fl) cs ≡ ok cl
        → Observed (λ r. r.telemetry.down_ll) runs xs
        → Observed (λ r. r.telemetry.down_classic) runs ys
        → (a b : Histogram fl) × (merge_runs fl ll cl runs ≡ ok (a, b))
          × (observe_all fl (new_default_histogram fl) (ls ++ xs) ≡ ok a)
          × (observe_all fl (new_default_histogram fl) (cs ++ ys) ≡ ok b)
    unfolding merge_runs
    merge_runs-from [] ll cl ls cs [] [] el ec no_runs no_runs =
        (ll, cl, refl, rw (append-nil ls) el, rw (append-nil cs) ec)
    merge_runs-from [] ll cl ls cs [] (y ∷ ys) el ec ol oc = elim oc [ ]
    merge_runs-from [] ll cl ls cs (x ∷ xs) ys el ec ol oc = elim ol [ ]
    merge_runs-from (r ∷ rs) ll cl ls cs xs ys el ec ol oc =
        let (ll', l1, l2, ml, sl, ol', xl) =
          step_samples (λ r. r.telemetry.down_ll) ll ls r rs xs el ol in
        let (cl', c1, c2, mc, sc, oc', xc) =
          step_samples (λ r. r.telemetry.down_classic) cl cs r rs ys ec oc in
        let (a, b, m, pa, pb) =
          merge_runs-from rs ll' cl' (ls ++ l1) (cs ++ c1) l2 c2 sl sc ol' oc' in
        (
          a,
          b,
          rw ml (rw mc m),
          rw xl (rw (sym (append_assoc ls l1 l2)) pa),
          rw xc (rw (sym (append_assoc cs c1 c2)) pb),
        )

    -- For runs whose histograms count samples over the default edges, which ascend and have no NaN, the
    -- loop of `api_cdf` does not panic, and it ends with the histogram of all the low-latency samples
    -- and the histogram of all the classic ones.
    pub merge_runs_lem :
        (runs : List (RunReport fl)) (xs ys : List F)
        → Observed (λ r. r.telemetry.down_ll) runs xs
        → Observed (λ r. r.telemetry.down_classic) runs ys
        → (a b : Histogram fl) × (merge_runs fl
              (new_default_histogram fl)
              (new_default_histogram fl)
              runs
            ≡ ok (a, b))
          × (observe_all fl (new_default_histogram fl) xs ≡ ok a)
          × (observe_all fl (new_default_histogram fl) ys ≡ ok b)
    unfolding observe_all
    merge_runs_lem runs xs ys ol oc =
        merge_runs-from runs (new_default_histogram fl) (new_default_histogram fl) [] [] xs ys refl
          refl ol oc
