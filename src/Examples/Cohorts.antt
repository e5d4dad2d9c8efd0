-- ===== src/Examples/Cohorts.antt =====
-- dashboard/dashboard.go at a report refused and at a cohort of two runs.
use qoe_test_harness.Prelude.{◌≡◌, refl, some, [], ◌∷◌, ok, arith}
use qoe_test_harness.Compute.Histogram.{Histogram, new_default_histogram, default_edges_ms}
use qoe_test_harness.Compute.Histogram.Counts.{
  observe_all, observe_all_counts, new_histogram-IsHistogram,
}
use qoe_test_harness.Report.{RunReport, valid}
use qoe_test_harness.Storage.{Memory, save, list}
use qoe_test_harness.Dashboard.{Store, answer, ingest, merge_runs}
use qoe_test_harness.Dashboard.Cohort.{no_runs, without, with_samples, merge_runs_lem}
use qoe_test_harness.Examples.Fixed.{fixed, fixed-Ordered}
use qoe_test_harness.Examples.Stores.{a_run}

abbrev memory_store : Store fixed
memory_store = record {
  State = Memory fixed;
  save_run = λ m r. some (save fixed m r);
  list_runs = λ m f. some (list fixed (λ xs. xs) m f);
}

nameless_refused :
    (m : Memory fixed)
    → ingest fixed memory_store m "POST" (some (a_run "" 3))
      ≡ (m, answer fixed 400 "invalid report: need schema, run_id, verdict")
unfolding ingest valid
nameless_refused m = refl

counted :
    (h : Histogram fixed) × (observe_all fixed (new_default_histogram fixed) (2000 ∷ 3000 ∷ [])
      ≡ ok h)
unfolding new_default_histogram
counted =
    let (h, e, w, same, counts, n) =
      observe_all_counts fixed fixed-Ordered (new_default_histogram fixed) (2000 ∷ 3000 ∷ [])
        (new_histogram-IsHistogram fixed (default_edges_ms fixed) (ground arith) (omega arith)).0 in
    (h, e)

abbrev low_run : RunReport fixed
low_run = record (a_run "a" 1) {
  telemetry = record ((a_run "a" 1).telemetry) { down_ll = some counted.0 };
}

merge_runs_lem_example :
    (a b : Histogram fixed) × (merge_runs fixed
        (new_default_histogram fixed)
        (new_default_histogram fixed)
        (low_run ∷ a_run "b" 2 ∷ [])
      ≡ ok (a, b))
    × (observe_all fixed (new_default_histogram fixed) (2000 ∷ 3000 ∷ []) ≡ ok a)
    × (observe_all fixed (new_default_histogram fixed) [] ≡ ok b)
merge_runs_lem_example =
    merge_runs_lem fixed fixed-Ordered (ground arith) refl (low_run ∷ a_run "b" 2 ∷ [])
      (2000 ∷ 3000 ∷ []) []
      (with_samples counted.0 (2000 ∷ 3000 ∷ []) refl counted.1 (without refl no_runs))
      (without refl (without refl no_runs))
