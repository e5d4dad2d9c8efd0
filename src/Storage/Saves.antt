-- ===== src/Storage/Saves.antt =====
-- What the store holds after a series of saves.
use Prim.Native.String.{String}
use qoe_test_harness.Prelude.{◌≡◌, refl, ap, ◌∙◌, Option, none, some, List, [], ◌∷◌, if◌then◌else◌}
use qoe_test_harness.Prelude.Texts.{str_eq}
use qoe_test_harness.Prelude.Maps.{lookup, text_key, lookup-insert}
use qoe_test_harness.Prelude.Floats.{Float64}
use qoe_test_harness.Report.{RunReport}
use qoe_test_harness.Storage.{Memory, new_memory, save}

module _ (fl : Float64) where
  unfoldable pub save_all : Memory fl → List (RunReport fl) → Memory fl
  save_all m [] = m
  save_all m (r ∷ rs) = save_all (save fl m r) rs

  -- The last of the reports with this run id, or `before` if there is none.
  abbrev pub latest : String → Option (RunReport fl) → List (RunReport fl) → Option (RunReport fl)
  latest id before [] = before
  latest id before (r ∷ rs) = latest id (if str_eq r.meta.run_id id then some r else before) rs

  saved_after :
      (id : String) (m : Memory fl) (rs : List (RunReport fl))
      → lookup id (save_all m rs).runs ≡ latest id (lookup id m.runs) rs
  unfolding save_all save
  saved_after id m [] = refl
  saved_after id m (r ∷ rs) =
      saved_after id (save fl m r) rs
      ∙ ap (λ o. latest id o rs) (lookup-insert r.meta.run_id id r m.runs)

  -- After any series of saves into an empty store, what the store has under a run id is the last
  -- report saved with that id.
  pub last_save_wins :
      (id : String) (rs : List (RunReport fl))
      → lookup id (save_all (new_memory fl) rs).runs ≡ latest id none rs
  unfolding new_memory lookup
  last_save_wins id rs = saved_after id (new_memory fl) rs
