-- ===== src/Storage.antt =====
-- storage/store.go: the filter of the engineer view and the store in memory. `newest_first` is
-- sort.Slice by descending start. The map's entries stand in the order of their first save; Go visits
-- them in any order, which the sort may keep for runs that started at the same time.
pub mod Postgres
pub mod Listing
pub mod Saves
pub mod Contract
pub mod Held
use Prim.Native.String.{String}
use qoe_test_harness.Prelude.{
  ℕ, Bool, true, false, not, ◌&&◌, ◌||◌, List, [], ◌∷◌, length, take, ltb, ◌==◌, if◌then◌else◌,
}
use qoe_test_harness.Prelude.Int.{ℤ, pos, negsuc, lt_int, eq_int}
use qoe_test_harness.Prelude.Texts.{str_eq}
use qoe_test_harness.Prelude.Maps.{insert, text_key}
use qoe_test_harness.Prelude.Floats.{Float64}
use qoe_test_harness.Report.{RunReport}

abbrev pub default_limit : ℕ
default_limit = 1000

-- `max_results` is the field Limit.
pub record Filter : Type 0 where
  pub isp : String
  pub region : String
  pub device_class : String
  pub verdict : String
  pub since_unix_ms : ℤ
  pub max_results : ℤ

unfoldable pub limit : Filter → ℕ
limit f = elim f.max_results [
  | pos n ↦ if n == 0 || ltb default_limit n then default_limit else n
  | negsuc n ↦ default_limit
]

module _ (fl : Float64) where
  -- `f.X != "" && r.X != f.X` is a reason not to match.
  abbrev pub differs : String → String → Bool
  differs wanted actual = not (str_eq wanted "") && not (str_eq actual wanted)

  unfoldable pub matches : Filter → RunReport fl → Bool
  matches f r =
      if differs f.isp r.meta.isp
      then false
      else if differs f.region r.meta.region
      then false
      else if differs f.device_class r.meta.device_class
      then false
      else if differs f.verdict r.result.verdict
      then false
      else if not (eq_int f.since_unix_ms (pos 0))
          && lt_int r.meta.started_at_unix_ms f.since_unix_ms
      then false
      else true

  pub record Memory : Type 0 where
    pub runs : List (String × RunReport fl)

  unfoldable pub new_memory : Memory
  new_memory = record { runs = [] }

  unfoldable pub save : Memory → RunReport fl → Memory
  save m r = record { runs = insert r.meta.run_id r m.runs }

  -- The loop of `List` over the map.
  unfoldable pub select : Filter → List (String × RunReport fl) → List (RunReport fl)
  select f [] = []
  select f ((id, r) ∷ runs) = let rest = select f runs in if matches f r then r ∷ rest else rest

  -- Memory.List.
  unfoldable pub list :
      (List (RunReport fl) → List (RunReport fl)) → Memory → Filter → List (RunReport fl)
  list newest_first m f =
      let out = newest_first (select f m.runs) in
      if ltb (limit f) (length out) then take (limit f) out else out
