-- ===== src/Storage/Postgres/Documents.antt =====
-- A database that does what PostgreSQL documents of the two statements, and the reports that its
-- table holds.
use Prim.Native.String.{String}
use mathlib.Core.Option.{some-injective}
use qoe_test_harness.Prelude.{
  count, ◌+◌, ◌++◌, ℕ, ◌≤◌, ◌≡◌, ◌⊎◌, inl, inr, refl, sym, ◌∙◌, subst, false, true, Option, some,
  none, List, [], ◌∷◌, map, Result, ok, >>=-eq-ok, length, if◌then◌else◌, if-true, if-false,
  Bool-cases,
}
use qoe_test_harness.Prelude.Int.{ℤ, pos, lt_int}
use qoe_test_harness.Prelude.Texts.{str_eq, str_eq_iff}
use qoe_test_harness.Prelude.Floats.{Float64}
use qoe_test_harness.Net.Seams.{Failure}
use qoe_test_harness.Report.{RunReport}
use qoe_test_harness.Storage.Listing.{Within}
use qoe_test_harness.Storage.Contract.{Runs, with_run}
use qoe_test_harness.Storage.Postgres.{Arg, text, int, bytes}
use qoe_test_harness.Storage.Postgres.Adapter.{Rows, Database, save_query, save_run}
use qoe_test_harness.Storage.Postgres.Tests.{
  Row, Test, meets, select_text, row_of, tests, placed, args_of,
}
use qoe_test_harness.Storage.{Filter}

-- No row started after one before it.
abbrev pub NewestRows : List Row → Type 0
NewestRows [] = Unit {0}
NewestRows (x ∷ xs) =
    ((y : Row) → Within y xs → lt_int x.started_at_ms y.started_at_ms ≡ false) × NewestRows xs

-- The rows that a SELECT chooses from a table: those that meet the tests, each once, in descending order
-- of their start, and a row is left out only when there are `n`, the limit.
pub record Chosen (table : String → Option Row) (ts : List (Test × ℕ)) (args : List Arg) (n : ℕ)
    (xs : List Row) : Type 0 where
  pub stands : (x : Row) → Within x xs → (id : String) × (table id ≡ some x)
  pub meet : (x : Row) → Within x xs → meets args x ts ≡ true
  pub distinct : (id : String) → count (λ (x : Row). str_eq x.run_id id) xs ≤ 1
  pub in_order : NewestRows xs
  pub bounded : length xs ≤ n
  pub complete :
      (id : String) (x : Row)
      → table id ≡ some x
      → meets args x ts ≡ true
      → Within x xs
        ⊎ ((length xs ≡ n)
            × ((y : Row) → Within y xs → lt_int y.started_at_ms x.started_at_ms ≡ false))

-- PostgreSQL's documented behaviour on the table of storage/schema.sql, whose primary key is the run
-- id. `stored b` is the text that it gives for a jsonb written as `b`.
pub record Documented (number : ℕ → String) (db : Database) : Type 0 where
  pub table : db.World → String → Option Row
  pub stored : List ℕ → List ℕ
  -- INSERT ... ON CONFLICT (run_id) DO UPDATE: the row under the run id is inserted or replaced.
  pub upserts :
      (w w' : db.World) (id isp region device_class verdict : String) (start down : ℤ)
      (payload : List ℕ)
      → db.exec w save_query (
          text id
          ∷ int start
          ∷ text isp
          ∷ text region
          ∷ text device_class
          ∷ text verdict
          ∷ int down
          ∷ bytes payload
          ∷ [])
        ≡ ok w'
      → (j : String)
      → table w' j ≡ (
          if str_eq id j
          then some (record {
            run_id = id;
            started_at_ms = start;
            isp = isp;
            region = region;
            device_class = device_class;
            verdict = verdict;
            provisioned_down_bps = down;
            payload = payload;
          })
          else table w j)
  -- SELECT ... WHERE ... ORDER BY started_at_ms DESC LIMIT, its placeholders given as many arguments of
  -- the columns' types: each row's payload is scanned, and no error ends the rows early.
  pub selects :
      (w : db.World) (f : Filter) (n : ℕ) (rows : Rows)
      → db.query w
          (select_text number (placed 1 (tests f)) (length (tests f) + 1))
          (args_of (tests f) ++ (int (pos n) ∷ []))
        ≡ ok rows
      → rows.finish ≡ none
      → (xs : List Row) × Chosen
          (table w)
          (placed 1 (tests f))
          (args_of (tests f) ++ (int (pos n) ∷ []))
          n
          xs
        × (rows.scans ≡ map (λ x. ok (stored x.payload)) xs)

module _ (fl : Float64) (number : ℕ → String) (db : Database) (laws : Documented number db)
    (encode : RunReport fl → Result Failure (List ℕ))
    (decode : List ℕ → Result Failure (RunReport fl)) where
  open laws use {table, stored}

  -- The row `x` is that of the report `r`.
  pub record IsRowOf (x : Row) (r : RunReport fl) : Type 0 where
    pub payload : List ℕ
    pub encoded : encode r ≡ ok payload
    pub restored : decode (stored payload) ≡ ok r
    pub is_row : x ≡ row_of fl r payload

  -- The table holds the rows of the reports of `v`, each under its run id.
  pub record Holds (w : db.World) (v : Runs fl) : Type 0 where
    pub rows :
        (id : String) (x : Row)
        → table w id ≡ some x
        → (r : RunReport fl) × (v id ≡ some r) × (r.meta.run_id ≡ id) × IsRowOf x r
    pub reports :
        (id : String) (r : RunReport fl)
        → v id ≡ some r
        → (x : Row) × (table w id ≡ some x) × IsRowOf x r

  pub save_run-Holds :
      (w w' : db.World) (v : Runs fl) (r : RunReport fl)
      → Holds w v
      → ((b : List ℕ) → encode r ≡ ok b → decode (stored b) ≡ ok r)
      → save_run fl db encode w r ≡ ok w'
      → Holds w' (with_run fl r v)
  unfolding save_run
  save_run-Holds w w' v r h restores done =
      let (payload, encoded, ran) = >>=-eq-ok (encode r) _ done in
      let after =
        laws.upserts w w' r.meta.run_id r.meta.isp r.meta.region r.meta.device_class
          r.result.verdict r.meta.started_at_unix_ms _ payload ran in
      let mine : IsRowOf (row_of fl r payload) r = record {
        payload = payload;
        encoded = encoded;
        restored = restores payload encoded;
        is_row = refl;
      } in
      record {
        rows = λ id x e. elim (Bool-cases (str_eq r.meta.run_id id)) [
          | inl own ↦ (
            r,
            if-true _ _ _ own,
            (str_eq_iff r.meta.run_id id).0 own,
            subst (λ z. IsRowOf z r)
                (some-injective (row_of fl r payload) x (sym (after id ∙ if-true _ _ _ own) ∙ e))
                mine,
          )
          | inr other ↦
              let (r', p, q, i) = h.rows id x (sym (after id ∙ if-false _ _ _ other) ∙ e) in
              (r', if-false _ _ _ other ∙ p, q, i)
        ];
        reports = λ id r' e. elim (Bool-cases (str_eq r.meta.run_id id)) [
          | inl own ↦ (
            row_of fl r payload,
            after id ∙ if-true _ _ _ own,
            subst (IsRowOf (row_of fl r payload))
                (some-injective r r' (sym (if-true _ _ _ own) ∙ e)) mine,
          )
          | inr other ↦
              let (x, p, i) = h.reports id r' (sym (if-false _ _ _ other) ∙ e) in
              (x, after id ∙ if-false _ _ _ other ∙ p, i)
        ];
      }
