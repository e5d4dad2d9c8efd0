-- ===== src/Storage/Postgres/Refines.antt =====
-- The Postgres adapter keeps the contract of a Store, on a database that does what PostgreSQL documents
-- of the two statements.
use Prim.Native.String.{String}
use qoe_test_harness.Prelude.{
  count, ap₂, suc, if◌then◌else◌, ℕ, ◌≡◌, inl, inr, refl, sym, ap, ◌∙◌, subst, false, some, none,
  List, [], ◌∷◌, ◌++◌, map, Result, ok, ok-injective, length, arith,
}
use qoe_test_harness.Prelude.Int.{pos, lt_int}
use qoe_test_harness.Prelude.Texts.{str_eq}
use qoe_test_harness.Prelude.Floats.{Float64}
use qoe_test_harness.Net.Seams.{Failure}
use qoe_test_harness.Report.{RunReport}
use qoe_test_harness.Storage.{Filter, limit, matches}
use qoe_test_harness.Storage.Listing.{
  has_id, Within, Within-cases, here, there, NewestFirst, NotNewer,
}
use qoe_test_harness.Storage.Contract.{Runs, with_run, Lists}
use qoe_test_harness.Storage.Postgres.{int, list_query}
use qoe_test_harness.Storage.Postgres.Adapter.{Rows, Database, save_run, read_rows, list_runs}
use qoe_test_harness.Storage.Postgres.Tests.{
  Row, meets, tests, placed, args_of, list_query-selects, meets-matches,
}
use qoe_test_harness.Storage.Postgres.Documents.{
  NewestRows, Chosen, Documented, IsRowOf, Holds, save_run-Holds,
}

module _ (fl : Float64) (number : ℕ → String) (db : Database) (laws : Documented number db)
    (encode : RunReport fl → Result Failure (List ℕ))
    (decode : List ℕ → Result Failure (RunReport fl)) where
  open laws use {table, stored}

  -- The reports `rs` are those of the rows `xs`, in order, and stand in `v` under their ids.
  data Reads (v : Runs fl) : List Row → List (RunReport fl) → Type 0 where
    none_left : Reads v [] []
    next :
        {x : Row} {r : RunReport fl} {xs : List Row} {rs : List (RunReport fl)}
        → IsRowOf fl number db laws encode decode x r
        → v r.meta.run_id ≡ some r
        → Reads v xs rs
        → Reads v (x ∷ xs) (r ∷ rs)

  -- The rows of the table are read, each as the report that it is the row of.
  reads :
      (w : db.World) (v : Runs fl) (xs : List Row)
      → Holds fl number db laws encode decode w v
      → ((x : Row) → Within x xs → (id : String) × (table w id ≡ some x))
      → (rs : List (RunReport fl)) × Reads v xs rs
        × (read_rows fl db decode (map (λ x. ok (stored x.payload)) xs) ≡ ok rs)
  unfolding read_rows
  reads w v [] h stand = ([], none_left, refl)
  reads w v (x ∷ xs) h stand =
      let (id, e) = stand x here in
      let (r, held, own, i) = h.rows id x e in
      let (rs, more, read) = reads w v xs h (λ y u. stand y (there u)) in
      let restored : decode (stored x.payload) ≡ ok r =
        ap (λ (z : Row). decode (stored z.payload)) i.is_row ∙ i.restored in
      (r ∷ rs, next i (subst (λ j. v j ≡ some r) (sym own) held) more, rw restored (rw read refl))

  Reads-Within :
      (v : Runs fl) {xs : List Row} {rs : List (RunReport fl)} (r : RunReport fl)
      → Reads v xs rs
      → Within r rs
      → (x : Row) × Within x xs
        × IsRowOf fl number db laws encode decode x r
        × (v r.meta.run_id ≡ some r)
  Reads-Within v r none_left u = elim u [ ]
  Reads-Within v r (next {x} {r = r'} {xs} {rs} i e d) u = elim (Within-cases r r' rs u) [
    | inl first ↦ (
      x,
      here,
      subst (IsRowOf fl number db laws encode decode x) (sym first) i,
      subst (λ z. v z.meta.run_id ≡ some z) (sym first) e,
    )
    | inr later ↦ let (y, t, j, q) = Reads-Within v r d later in (y, there t, j, q)
  ]

  Within-Reads :
      (v : Runs fl) {xs : List Row} {rs : List (RunReport fl)} (x : Row)
      → Reads v xs rs
      → Within x xs
      → (r : RunReport fl) × Within r rs × IsRowOf fl number db laws encode decode x r
  Within-Reads v x none_left u = elim u [ ]
  Within-Reads v x (next {x = y} {r} {xs} {rs} i e d) u = elim (Within-cases x y xs u) [
    | inl first ↦ (r, here, subst (λ z. IsRowOf fl number db laws encode decode z r) (sym first) i)
    | inr later ↦ let (r', t, j) = Within-Reads v x d later in (r', there t, j)
  ]

  -- A row is that of one report.
  row-injective :
      (x : Row) (r r' : RunReport fl)
      → IsRowOf fl number db laws encode decode x r
      → IsRowOf fl number db laws encode decode x r'
      → r ≡ r'
  row-injective x r r' i j =
      let one : i.payload ≡ j.payload = ap (λ (z : Row). z.payload) (sym i.is_row ∙ j.is_row) in
      ok-injective r r' (sym i.restored ∙ ap (λ b. decode (stored b)) one ∙ j.restored)

  NotNewer-rows :
      (x y : Row) (r r' : RunReport fl)
      → IsRowOf fl number db laws encode decode x r
      → IsRowOf fl number db laws encode decode y r'
      → lt_int x.started_at_ms y.started_at_ms ≡ false
      → NotNewer fl r r'
  NotNewer-rows x y r r' i j e =
      subst (λ z. lt_int z r'.meta.started_at_unix_ms ≡ false)
        (ap (λ (z : Row). z.started_at_ms) i.is_row)
        (subst (λ z. lt_int x.started_at_ms z ≡ false) (ap (λ (z : Row). z.started_at_ms) j.is_row)
          e)

  Reads-NewestFirst :
      (v : Runs fl) {xs : List Row} {rs : List (RunReport fl)}
      → Reads v xs rs
      → NewestRows xs
      → NewestFirst fl rs
  Reads-NewestFirst v none_left o = tt
  Reads-NewestFirst v (next {x} {r} i e d) o = (
    (λ r' u. let (y, t, j, _) = Reads-Within v r' d u in NotNewer-rows x y r r' i j (o.0 y t)),
    Reads-NewestFirst v d o.1,
  )

  Reads-length :
      (v : Runs fl) {xs : List Row} {rs : List (RunReport fl)}
      → Reads v xs rs
      → length rs ≡ length xs
  Reads-length v none_left = refl
  Reads-length v (next i e d) = omega (arith, Reads-length v d)

  Reads-count :
      (v : Runs fl) (id : String) {xs : List Row} {rs : List (RunReport fl)}
      → Reads v xs rs
      → count (has_id fl id) rs ≡ count (λ (x : Row). str_eq x.run_id id) xs
  Reads-count v id none_left = refl
  Reads-count v id (next {x} {r} {xs} {rs} i e d) =
      ap₂ (λ b n. if str_eq b id then suc n else n) (sym (ap (λ (z : Row). z.run_id) i.is_row))
        (Reads-count v id d)

  IsRowOf-matches :
      (f : Filter) (x : Row) (r : RunReport fl)
      → IsRowOf fl number db laws encode decode x r
      → meets (args_of (tests f) ++ (int (pos (limit f)) ∷ [])) x (placed 1 (tests f))
        ≡ matches fl f r
  IsRowOf-matches f x r i =
      ap (λ z. meets (args_of (tests f) ++ (int (pos (limit f)) ∷ [])) z (placed 1 (tests f)))
        i.is_row
      ∙ meets-matches fl f r i.payload

  Chosen-Lists :
      (w : db.World) (v : Runs fl) (f : Filter) (xs : List Row) (rs : List (RunReport fl))
      → Holds fl number db laws encode decode w v
      → Chosen
          (table w)
          (placed 1 (tests f))
          (args_of (tests f) ++ (int (pos (limit f)) ∷ []))
          (limit f)
          xs
      → Reads v xs rs
      → Lists fl v f rs
  unfolding limit
  Chosen-Lists w v f xs rs h chosen d = record {
    held = λ r u. (Reads-Within v r d u).3;
    fits = λ r u.
        let (x, t, i, _) = Reads-Within v r d u in sym (IsRowOf-matches f x r i) ∙ chosen.meet x t;
    distinct = λ id. omega (arith, Reads-count v id d, chosen.distinct id);
    newest_first = Reads-NewestFirst v d chosen.in_order;
    bounded = omega (arith, Reads-length v d, chosen.bounded);
    few = ground arith;
    complete = λ id r e fit.
        let (x, stands, i) = h.reports id r e in
        elim (chosen.complete id x stands (IsRowOf-matches f x r i ∙ fit)) [
          | inl within ↦
              let (r', u, j) = Within-Reads v x d within in
              inl (subst (λ z. Within z rs) (row-injective x r' r j i) u)
          | inr (full, newer) ↦ inr (
            Reads-length v d ∙ full,
            (λ r' u.
                let (y, t, j, _) = Reads-Within v r' d u in NotNewer-rows y x r' r j i (newer y t)),
          )
        ];
  }

  -- On a database that does what PostgreSQL documents, and whose jsonb keeps the report, the adapter implements the contract: a
  -- save that returns no error adds the report or replaces the one with its id, and when the query returns rows with no
  -- error, List returns their reports, which are an answer to the filter.
  pub postgres_refines :
      (w w' : db.World) (v : Runs fl) (r : RunReport fl) (f : Filter) (rows : Rows)
      → Holds fl number db laws encode decode w v
      → ((b : List ℕ) → encode r ≡ ok b → decode (stored b) ≡ ok r)
      → save_run fl db encode w r ≡ ok w'
      → db.query w (list_query number f).0 (list_query number f).1 ≡ ok rows
      → rows.finish ≡ none
      → Holds fl number db laws encode decode w' (with_run fl r v)
        × ((rs : List (RunReport fl)) × (list_runs fl db number decode w f ≡ ok rs)
            × Lists fl v f rs)
  unfolding list_runs
  postgres_refines w w' v r f rows h restores saved queried finished =
      let (query, args) = list_query-selects number f in
      let (xs, chosen, scanned) =
        laws.selects w f (limit f) rows
          (subst (λ q. db.query w q (args_of (tests f) ++ (int (pos (limit f)) ∷ [])) ≡ ok rows)
            query (subst (λ a. db.query w (list_query number f).0 a ≡ ok rows) args queried))
          finished in
      let (rs, d, read) = reads w v xs h chosen.stands in
      (
        save_run-Holds fl number db laws encode decode w w' v r h restores saved,
        (
          rs,
          rw queried (rw scanned (rw read (rw finished refl))),
          Chosen-Lists w v f xs rs h chosen d,
        ),
      )
