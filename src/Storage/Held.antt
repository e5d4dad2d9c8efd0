-- ===== src/Storage/Held.antt =====
-- The store in memory keeps the contract of a Store.
use Prim.Native.String.{String}
use qoe_test_harness.Prelude.{
  count, ◌≤◌, false, if-both, ◌≡◌, inl, inr, refl, sym, ap, ◌∙◌, Option, some, none, List, [], ◌∷◌,
  if◌then◌else◌, arith, Bool-cases, subst,
}
use qoe_test_harness.Prelude.Texts.{str_eq, str_eq_iff}
use qoe_test_harness.Prelude.Maps.{lookup, insert, text_key, lookup-insert}
use qoe_test_harness.Prelude.Floats.{Float64}
use qoe_test_harness.Report.{RunReport}
use qoe_test_harness.Storage.{matches, Filter, Memory, new_memory, save, select, list}
use qoe_test_harness.Storage.Listing.{has_id, Within, Within-cases, here, there, Sorts, list_lem}
use qoe_test_harness.Storage.Contract.{Runs, no_runs, with_run, Lists}

module _ (fl : Float64) where
  -- Each entry stands under its own run id, and no id has two.
  abbrev Keyed : List (String × RunReport fl) → Type 0
  Keyed [] = Unit {0}
  Keyed ((id, r) ∷ m) = (r.meta.run_id ≡ id) × (lookup id m ≡ none) × Keyed m

  pub record Holds (m : Memory fl) (v : Runs fl) : Type 0 where
    pub keyed : Keyed m.runs
    pub same : (id : String) → lookup id m.runs ≡ v id

  insert-Keyed :
      (r : RunReport fl) (m : List (String × RunReport fl))
      → Keyed m
      → Keyed (insert r.meta.run_id r m)
  unfolding insert lookup
  insert-Keyed r [] k = (refl, refl, tt)
  insert-Keyed r ((id, x) ∷ m) (own, absent, k) = elim (Bool-cases (str_eq id r.meta.run_id)) [
    | inl old ↦
        rw old
          (refl, subst (λ i. lookup i m ≡ none) ((str_eq_iff id r.meta.run_id).0 old) absent, k)
    | inr new ↦ rw new (
      own,
      ground (
        arith,
        lookup-insert r.meta.run_id id r m,
        str_eq_iff r.meta.run_id id,
        str_eq_iff id r.meta.run_id,
      ),
      insert-Keyed r m k,
    )
  ]

  lookup-Within :
      (id : String) (r : RunReport fl) (m : List (String × RunReport fl))
      → Keyed m
      → Within (id, r) m
      → (lookup id m ≡ some r) × (r.meta.run_id ≡ id)
  unfolding lookup
  lookup-Within id r [] k w = elim w [ ]
  lookup-Within id r ((id', x) ∷ m) (own, absent, k) w = elim (Within-cases (id, r) (id', x) m w) [
    | inl same ↦
        let e : id ≡ id' = ap (λ p. p.0) same in
        let q : r ≡ x = ap (λ p. p.1) same in
        rw ((str_eq_iff id' id).1 (sym e))
          (ap some (sym q), ap (λ (z : RunReport fl). z.meta.run_id) q ∙ own ∙ sym e)
    | inr later ↦
        let (found, mine) = lookup-Within id r m k later in
        elim (Bool-cases (str_eq id' id)) [
          | inl clash ↦ cc (found, absent, (str_eq_iff id' id).0 clash)
          | inr new ↦ rw new (found, mine)
        ]
  ]

  Within-lookup :
      (id : String) (r : RunReport fl) (m : List (String × RunReport fl))
      → lookup id m ≡ some r
      → (j : String) × Within (j, r) m
  unfolding lookup
  Within-lookup id r [] e = cc
  Within-lookup id r ((j, x) ∷ m) e = elim (Bool-cases (str_eq j id)) [
    | inl yes_j ↦ (j, subst (λ z. Within (j, z) ((j, x) ∷ m)) (some_inj x r (rw yes_j at e)) here)
    | inr no_j ↦ let (i, w) = Within-lookup id r m (rw no_j at e) in (i, there w)
  ]
    where
      some_inj : (a b : RunReport fl) → ◌≡◌ {A = Option (RunReport fl)} (some a) (some b) → a ≡ b
      some_inj a b p = cc

  count-absent :
      (f : Filter) (id : String) (m : List (String × RunReport fl))
      → Keyed m
      → lookup id m ≡ none
      → count (has_id fl id) (select fl f m) ≡ 0
  unfolding select lookup
  count-absent f id [] k e = refl
  count-absent f id ((j, x) ∷ m) (own, absent, k) e = elim (Bool-cases (str_eq j id)) [
    | inl mine ↦ cc (rw mine at e)
    | inr other ↦
        let rest = count-absent f id m k (rw other at e) in
        let kept : str_eq x.meta.run_id id ≡ false = rw own other in
        if-both (λ l. count (has_id fl id) l ≡ 0) (matches fl f x) (rw kept rest) rest
  ]

  -- A selection has no id twice.
  count-select :
      (f : Filter) (id : String) (m : List (String × RunReport fl))
      → Keyed m
      → count (has_id fl id) (select fl f m) ≤ 1
  unfolding select
  count-select f id [] k = omega arith
  count-select f id ((j, x) ∷ m) (own, absent, k) =
      if-both (λ l. count (has_id fl id) l ≤ 1) (matches fl f x)
        (elim (Bool-cases (str_eq x.meta.run_id id)) [
          | inl mine ↦
              let none_later : lookup id m ≡ none =
                subst (λ i. lookup i m ≡ none) (sym own ∙ (str_eq_iff x.meta.run_id id).0 mine)
                  absent in
              rw mine (omega (arith, count-absent f id m k none_later))
          | inr other ↦ rw other (count-select f id m k)
        ])
        (count-select f id m k)

  pub new_memory-Holds : Holds (new_memory fl) (no_runs fl)
  unfolding new_memory lookup
  new_memory-Holds = record { keyed = tt; same = λ id. refl }

  pub save-Holds :
      (m : Memory fl) (v : Runs fl) (r : RunReport fl)
      → Holds m v
      → Holds (save fl m r) (with_run fl r v)
  unfolding save
  save-Holds m v r h = record {
    keyed = insert-Keyed r m.runs h.keyed;
    same = λ id.
        lookup-insert r.meta.run_id id r m.runs
        ∙ ap (λ o. if str_eq r.meta.run_id id then some r else o) (h.same id);
  }

  pub list-Lists :
      (newest_first : List (RunReport fl) → List (RunReport fl)) (m : Memory fl) (v : Runs fl)
      (f : Filter)
      → Sorts fl (select fl f m.runs) (newest_first (select fl f m.runs))
      → Holds m v
      → Lists fl v f (list fl newest_first m f)
  list-Lists newest_first m v f sorts h =
      let (sound, newest, counts, bounded, few, complete) = list_lem fl newest_first m f sorts in
      record {
        held = λ x w.
            let (fit, (id, within)) = sound x w in
            let (found, own) = lookup-Within id x m.runs h.keyed within in
            sym (h.same x.meta.run_id) ∙ subst (λ i. lookup i m.runs ≡ some x) (sym own) found;
        fits = λ x w. (sound x w).0;
        distinct = λ id. omega (arith, counts (has_id fl id), count-select f id m.runs h.keyed);
        newest_first = newest;
        bounded = bounded;
        few = few;
        complete = λ id x e fit.
            let (j, within) = Within-lookup id x m.runs (h.same id ∙ e) in complete j x within fit;
      }

  -- When the sort sorts the runs that match the filter, newest first, the store in memory implements the contract: a new one holds
  -- nothing, a save adds the report or replaces the one with its id, and what it lists is an answer to the filter.
  pub memory_refines :
      (newest_first : List (RunReport fl) → List (RunReport fl)) (m : Memory fl) (v : Runs fl)
      (r : RunReport fl) (f : Filter)
      → Sorts fl (select fl f m.runs) (newest_first (select fl f m.runs))
      → Holds m v
      → Holds (new_memory fl) (no_runs fl)
        × Holds (save fl m r) (with_run fl r v)
        × Lists fl v f (list fl newest_first m f)
  memory_refines newest_first m v r f sorts h =
      (new_memory-Holds, save-Holds m v r h, list-Lists newest_first m v f sorts h)
