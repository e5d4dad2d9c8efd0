-- ===== src/Storage/Contract.antt =====
-- What a Store of storage/store.go promises: it holds for each run id the last report saved with it,
-- and lists the newest of those that match.
use Prim.Native.String.{String}
use qoe_test_harness.Prelude.{
  count, ◌≤◌, ◌≡◌, ◌⊎◌, true, Option, some, none, List, length, if◌then◌else◌,
}
use qoe_test_harness.Prelude.Texts.{str_eq}
use qoe_test_harness.Prelude.Floats.{Float64}
use qoe_test_harness.Report.{RunReport}
use qoe_test_harness.Storage.{default_limit, Filter, limit, matches}
use qoe_test_harness.Storage.Listing.{has_id, Within, NewestFirst, NotNewer}

module _ (fl : Float64) where
  -- The reports held, by their run ids.
  abbrev pub Runs : Type 0
  Runs = String → Option (RunReport fl)

  abbrev pub no_runs : Runs
  no_runs id = none

  abbrev pub with_run : RunReport fl → Runs → Runs
  with_run r v id = if str_eq r.meta.run_id id then some r else v id

  -- The answer `rs` to the filter.
  pub record Lists (v : Runs) (f : Filter) (rs : List (RunReport fl)) : Type 0 where
    pub held : (r : RunReport fl) → Within r rs → v r.meta.run_id ≡ some r
    pub fits : (r : RunReport fl) → Within r rs → matches fl f r ≡ true
    pub distinct : (id : String) → count (has_id fl id) rs ≤ 1
    pub newest_first : NewestFirst fl rs
    pub bounded : length rs ≤ limit f
    pub few : limit f ≤ default_limit
    -- What matches is left out only of a full list, and did not start after what is listed.
    pub complete :
        (id : String) (r : RunReport fl)
        → v id ≡ some r
        → matches fl f r ≡ true
        → Within r rs
          ⊎ ((length rs ≡ limit f) × ((x : RunReport fl) → Within x rs → NotNewer fl x r))
