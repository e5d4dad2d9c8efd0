-- ===== src/Examples/Table.antt =====
-- A database of one row that evaluates the conditions of a query, and the adapter on it.
use Prim.Native.String.{String}
use mathlib.Core.Option.{some-injective}
use qoe_test_harness.Prelude.{
  not, ◌+◌, ◌++◌, ℕ, ◌≡◌, refl, sym, ap, ◌∙◌, subst, true, inl, inr, Option, some, none, List, [],
  ◌∷◌, map, Result, ok, err, ok-injective, length, ◌==◌, if◌then◌else◌, if-true, arith, Bool-cases,
}
use qoe_test_harness.Prelude.Int.{pos, eq_int}
use qoe_test_harness.Prelude.Texts.{str_eq, str_eq_iff}
use qoe_test_harness.Net.Seams.{Failure}
use qoe_test_harness.Report.{RunReport}
use qoe_test_harness.Storage.{Filter, limit}
use qoe_test_harness.Storage.Listing.{Within, Within-cases, here}
use qoe_test_harness.Storage.Contract.{Runs, with_run, Lists}
use qoe_test_harness.Storage.Postgres.{Arg, text, int, bytes, list_query, built, add}
use qoe_test_harness.Storage.Postgres.Adapter.{Rows, Database, save_run, list_runs}
use qoe_test_harness.Storage.Postgres.Tests.{
  tests, placed, args_of, meets, Row, Test, select_text, row_of,
}
use qoe_test_harness.Storage.Postgres.Documents.{Chosen, Documented, IsRowOf, Holds}
use qoe_test_harness.Storage.Postgres.Refines.{postgres_refines}
use qoe_test_harness.Examples.Queries.{digit, parsed, parsed-select_text}
use qoe_test_harness.Examples.Fixed.{fixed}
use qoe_test_harness.Examples.Stores.{a_run}

abbrev Entry : Type 0
Entry = Option (String × Row)

abbrev put : Entry → String → Row → Result Failure Entry
put none id x = ok (some (id, x))
put (some (j, y)) id x = if str_eq j id then ok (some (id, x)) else err "disk full"

abbrev run_insert : Entry → List Arg → Result Failure Entry
run_insert w
      (text id
        ∷ int start
        ∷ text isp
        ∷ text region
        ∷ text device_class
        ∷ text verdict
        ∷ int down
        ∷ bytes payload
        ∷ []) =
    put w id (record {
      run_id = id;
      started_at_ms = start;
      isp = isp;
      region = region;
      device_class = device_class;
      verdict = verdict;
      provisioned_down_bps = down;
      payload = payload;
    })
run_insert w args = err "syntax error"

abbrev last : List Arg → Option Arg
last [] = none
last (a ∷ []) = some a
last (a ∷ b ∷ rest) = last (b ∷ rest)

last-append : (args : List Arg) (a : Arg) → last (args ++ (a ∷ [])) ≡ some a
last-append [] a = refl
last-append (x ∷ []) a = refl
last-append (x ∷ y ∷ args) a = last-append (y ∷ args) a

-- The first `n` rows that meet the tests.
abbrev first : ℕ → List (Test × ℕ) → List Arg → Entry → List Row
first n ts args none = []
first n ts args (some (id, x)) = if n == 0 then [] else if meets args x ts then x ∷ [] else []

abbrev limited : Option Arg → List (Test × ℕ) → List Arg → Entry → Result Failure Rows
limited (some (int (pos n))) ts args w =
    ok (record { scans = map (λ x. ok x.payload) (first n ts args w); finish = none })
limited other ts args w = err "invalid limit"

abbrev run_select : Option (List (Test × ℕ)) → List Arg → Entry → Result Failure Rows
run_select none args w = err "syntax error"
run_select (some ts) args w = limited (last args) ts args w

abbrev one_row : Database
one_row = record {
  World = Entry;
  exec = λ w q args. run_insert w args;
  query = λ w q args. run_select (parsed q) args w;
}

abbrev row_at : Entry → String → Option Row
row_at none id = none
row_at (some (j, x)) id = if str_eq j id then some x else none

put-row_at :
    (w w' : Entry) (id : String) (x : Row)
    → put w id x ≡ ok w'
    → (j : String) → row_at w' j ≡ (if str_eq id j then some x else row_at w j)
put-row_at none w' id x e j =
    subst (λ z. row_at z j ≡ (if str_eq id j then some x else none))
      (ok-injective (some (id, x)) w' e) refl
put-row_at (some (i, y)) w' id x e j = elim (Bool-cases (str_eq i id)) [
  | inl old ↦
      subst (λ z. row_at z j ≡ (if str_eq id j then some x else row_at (some (i, y)) j))
        (ok-injective (some (id, x)) w' (rw old at e))
        (ground (arith, str_eq_iff i id, str_eq_iff i j, str_eq_iff id j))
  | inr full ↦ cc (rw full at e)
]

first-Chosen :
    (w : Entry) (n : ℕ) (ts : List (Test × ℕ)) (args : List Arg)
    → Chosen (row_at w) ts args n (first n ts args w)
first-Chosen none n ts args = record {
  stands = λ x u. elim u [ ];
  meet = λ x u. elim u [ ];
  distinct = λ id. omega arith;
  in_order = tt;
  bounded = omega arith;
  complete = λ id x e m. cc e;
}
first-Chosen (some (id, x)) n ts args = elim (Bool-cases (n == 0)) [
  | inl no_row ↦ rw no_row (record {
    stands = λ y u. elim u [ ];
    meet = λ y u. elim u [ ];
    distinct = λ j. omega arith;
    in_order = tt;
    bounded = omega arith;
    complete = λ j y e m. inr (ground arith, (λ z u. elim u [ ]));
  })
  | inr a_row ↦ elim (Bool-cases (meets args x ts)) [
    | inl met ↦
        rw (a_row, met)
          (record {
            stands = λ y u. elim (Within-cases y x [] u) [
              | inl e ↦ (id, if-true _ _ _ ((str_eq_iff id id).1 refl) ∙ ap some (sym e))
              | inr none_there ↦ elim none_there [ ]
            ];
            meet = λ y u. elim (Within-cases y x [] u) [
              | inl e ↦ subst (λ z. meets args z ts ≡ true) (sym e) met
              | inr none_there ↦ elim none_there [ ]
            ];
            distinct = λ j. ground arith;
            in_order = ((λ y u. elim u [ ]), tt);
            bounded = ground arith;
            complete = λ j y e m. elim (Bool-cases (str_eq id j)) [
              | inl own ↦ inl (
                  subst (λ z. Within z (x ∷ [])) (some-injective x y (sym (if-true _ _ _ own) ∙ e))
                    here)
              | inr other ↦ cc (rw other at e)
            ];
          })
    | inr unmet ↦
        rw (a_row, unmet)
          (record {
            stands = λ y u. elim u [ ];
            meet = λ y u. elim u [ ];
            distinct = λ j. omega arith;
            in_order = tt;
            bounded = omega arith;
            complete = λ j y e m. elim (Bool-cases (str_eq id j)) [
              | inl own ↦
                  let it : x ≡ y = some-injective x y (sym (if-true _ _ _ own) ∙ e) in
                  cc (subst (λ z. meets args z ts ≡ true) (sym it) m, unmet)
              | inr other ↦ cc (rw other at e)
            ];
          })
  ]
]

selects :
    (w : Entry) (f : Filter) (n : ℕ) (rows : Rows)
    → one_row.query w
        (select_text digit (placed 1 (tests f)) (length (tests f) + 1))
        (args_of (tests f) ++ (int (pos n) ∷ []))
      ≡ ok rows
    → rows.finish ≡ none
    → (xs : List Row) × Chosen
        (row_at w)
        (placed 1 (tests f))
        (args_of (tests f) ++ (int (pos n) ∷ []))
        n
        xs
      × (rows.scans ≡ map (λ x. ok x.payload) xs)
selects w f n rows e ended =
    let ts = placed 1 (tests f) in
    let args = args_of (tests f) ++ (int (pos n) ∷ []) in
    let found : parsed (select_text digit ts (length (tests f) + 1)) ≡ some ts =
      parsed-select_text (not (str_eq f.isp "")) (not (str_eq f.region ""))
        (not (str_eq f.device_class "")) (not (str_eq f.verdict ""))
        (not (eq_int f.since_unix_ms (pos 0))) (text f.isp) (text f.region) (text f.device_class)
        (text f.verdict) (int f.since_unix_ms) in
    let ran : ok (record { scans = map (λ x. ok x.payload) (first n ts args w); finish = none })
        ≡ ok rows =
      ap (λ a. limited a ts args w) (sym (last-append (args_of (tests f)) (int (pos n))))
      ∙ ap (λ o. run_select o args w) (sym found)
      ∙ e in
    (
      first n ts args w,
      first-Chosen w n ts args,
      sym (
          ap (λ (r : Rows). r.scans)
            (ok-injective
              (record { scans = map (λ x. ok x.payload) (first n ts args w); finish = none }) rows
              ran)),
    )

abbrev one_row-Documented : Documented digit one_row
one_row-Documented = record {
  table = row_at;
  stored = λ b. b;
  upserts = λ w w' id isp region device_class verdict start down payload e.
      put-row_at w w' id
        (record {
          run_id = id;
          started_at_ms = start;
          isp = isp;
          region = region;
          device_class = device_class;
          verdict = verdict;
          provisioned_down_bps = down;
          payload = payload;
        })
        e;
  selects = selects;
}

-- The reports are written as one byte.
abbrev encode : RunReport fixed → Result Failure (List ℕ)
encode r = ok ((if str_eq r.meta.isp "south" then 2 else 1) ∷ [])

abbrev moved : RunReport fixed
moved = record (a_run "a" 20) { meta = record ((a_run "a" 20).meta) { isp = "south" } }

abbrev decode : List ℕ → Result Failure (RunReport fixed)
decode [] = err "unexpected end of JSON input"
decode (b ∷ bs) = ok (if b == 2 then moved else a_run "a" 10)

abbrev held : Entry
held = some ("a", row_of fixed (a_run "a" 10) (1 ∷ []))

abbrev runs : Runs fixed
runs = with_run fixed (a_run "a" 10) (λ id. none)

abbrev recent_of_isp : Filter
recent_of_isp = record {
  isp = (a_run "a" 10).meta.isp;
  region = "";
  device_class = "";
  verdict = "";
  since_unix_ms = pos 5;
  max_results = pos 0;
}

a_row :
    IsRowOf fixed digit one_row one_row-Documented encode decode
      (row_of fixed (a_run "a" 10) (1 ∷ []))
      (a_run "a" 10)
a_row = record { payload = 1 ∷ []; encoded = refl; restored = refl; is_row = refl }

held-Holds : Holds fixed digit one_row one_row-Documented encode decode held runs
held-Holds = record {
  rows = λ id x e. elim (Bool-cases (str_eq "a" id)) [
    | inl own ↦ (
      a_run "a" 10,
      if-true _ _ _ own,
      (str_eq_iff "a" id).0 own,
      subst (λ z. IsRowOf fixed digit one_row one_row-Documented encode decode z (a_run "a" 10))
          (some-injective _ x (sym (if-true _ _ _ own) ∙ e)) a_row,
    )
    | inr other ↦ cc (rw other at e)
  ];
  reports = λ id r e. elim (Bool-cases (str_eq "a" id)) [
    | inl own ↦ (
      row_of fixed (a_run "a" 10) (1 ∷ []),
      if-true _ _ _ own,
      subst
          (IsRowOf fixed digit one_row one_row-Documented encode decode
            (row_of fixed (a_run "a" 10) (1 ∷ [])))
          (some-injective (a_run "a" 10) r (sym (if-true _ _ _ own) ∙ e)) a_row,
    )
    | inr other ↦ cc (rw other at e)
  ];
}

postgres_refines_example :
    Holds fixed digit one_row one_row-Documented encode decode
      (some ("a", row_of fixed moved (2 ∷ [])))
      (with_run fixed moved runs)
    × ((rs : List (RunReport fixed)) × (list_runs fixed one_row digit decode held recent_of_isp
          ≡ ok rs)
        × Lists fixed runs recent_of_isp rs)
unfolding save_run list_query limit built add select_text
postgres_refines_example =
    postgres_refines fixed digit one_row one_row-Documented encode decode held
      (some ("a", row_of fixed moved (2 ∷ []))) runs moved recent_of_isp
      (record { scans = ok (1 ∷ []) ∷ []; finish = none }) held-Holds
      (λ b e. subst (λ z. decode z ≡ ok moved) (ok-injective (2 ∷ []) b e) refl) refl refl refl
