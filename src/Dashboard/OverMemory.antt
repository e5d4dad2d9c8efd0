-- ===== src/Dashboard/OverMemory.antt =====
-- The store in memory as the dashboard's store.
use qoe_test_harness.Prelude.{subst, some, List}
use mathlib.Core.Option.{some-injective}
use qoe_test_harness.Prelude.Floats.{Float64}
use qoe_test_harness.Report.{RunReport}
use qoe_test_harness.Storage.{Memory, save, select, list}
use qoe_test_harness.Storage.Listing.{Sorts}
use qoe_test_harness.Storage.Contract.{with_run, Lists}
use qoe_test_harness.Storage.Held.{Holds, save-Holds, list-Lists}
use qoe_test_harness.Dashboard.{Store}
use qoe_test_harness.Dashboard.Fleet.{Implements}

module _ (fl : Float64) (newest_first : List (RunReport fl) → List (RunReport fl)) where
  abbrev pub memory_store : Store fl
  memory_store = record {
    State = Memory fl;
    save_run = λ m r. some (save fl m r);
    list_runs = λ m f. some (list fl newest_first m f);
  }

  -- A sort makes it a store that keeps the contract.
  pub memory_store-Implements :
      ((xs : List (RunReport fl)) → Sorts fl xs (newest_first xs))
      → Implements fl memory_store (Holds fl)
  memory_store-Implements sorts = record {
    save_run-Holds = λ m v r m' h e.
        subst (λ x. Holds fl x (with_run fl r v)) (some-injective (save fl m r) m' e)
          (save-Holds fl m v r h);
    list_runs-Lists = λ m v f rs h e.
        subst (Lists fl v f) (some-injective (list fl newest_first m f) rs e)
          (list-Lists fl newest_first m v f (sorts (select fl f m.runs)) h);
  }
