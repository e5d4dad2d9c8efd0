-- ===== src/Examples/Fleets.antt =====
-- The dashboard over a store in memory, with a sort by insertion.
use Prim.Native.String.{String}
use qoe_test_harness.Prelude.{
  count, Bool, suc, ap, ◌∙◌, ◌≡◌, ◌⊎◌, inl, inr, refl, sym, subst, true, false, Option, some, none,
  List, [], ◌∷◌, map, if◌then◌else◌, arith, Bool-cases,
}
use qoe_test_harness.Prelude.Int.{ℤ, pos, negsuc, lt_int}
use qoe_test_harness.Prelude.Maps.{lookup, insert}
use qoe_test_harness.Report.{RunReport, valid}
use qoe_test_harness.Storage.Listing.{
  Within, Within-cases, here, there, NotNewer, NewestFirst, Sorts,
}
use qoe_test_harness.Storage.{Memory, new_memory, save}
use qoe_test_harness.Storage.Contract.{no_runs, Lists}
use qoe_test_harness.Storage.Held.{Holds, new_memory-Holds}
use qoe_test_harness.Dashboard.{row_of, ingest, filter_from_query}
use qoe_test_harness.Dashboard.Routes.{Request, Response, runs_json, list_failed, serve, serve_all}
use qoe_test_harness.Dashboard.Requests.{Served, serve-Served}
use qoe_test_harness.Dashboard.Fleet.{recorded, runs_request, fleet_view}
use qoe_test_harness.Dashboard.OverMemory.{memory_store, memory_store-Implements}
use qoe_test_harness.Examples.Fixed.{fixed}
use qoe_test_harness.Examples.Stores.{a_run}

abbrev insert_run : RunReport fixed → List (RunReport fixed) → List (RunReport fixed)
insert_run r [] = r ∷ []
insert_run r (x ∷ xs) =
    let rest = insert_run r xs in
    if lt_int r.meta.started_at_unix_ms x.meta.started_at_unix_ms then x ∷ rest else r ∷ x ∷ xs

abbrev newest_first : List (RunReport fixed) → List (RunReport fixed)
newest_first [] = []
newest_first (x ∷ xs) = insert_run x (newest_first xs)

lt_int-asym : (a b : ℤ) → lt_int a b ≡ true → lt_int b a ≡ false
lt_int-asym (pos a) (pos b) h = ground (arith, h)
lt_int-asym (pos a) (negsuc b) h = cc
lt_int-asym (negsuc a) (pos b) h = refl
lt_int-asym (negsuc a) (negsuc b) h = ground (arith, h)

lt_int-between : (a b c : ℤ) → lt_int a b ≡ false → lt_int b c ≡ false → lt_int a c ≡ false
lt_int-between (pos a) (pos b) (pos c) h k = ground (arith, h, k)
lt_int-between (pos a) (pos b) (negsuc c) h k = refl
lt_int-between (pos a) (negsuc b) (pos c) h k = cc
lt_int-between (pos a) (negsuc b) (negsuc c) h k = refl
lt_int-between (negsuc a) (pos b) c h k = cc
lt_int-between (negsuc a) (negsuc b) (pos c) h k = cc
lt_int-between (negsuc a) (negsuc b) (negsuc c) h k = ground (arith, h, k)

insert_run-from :
    (r z : RunReport fixed) (xs : List (RunReport fixed))
    → Within z (insert_run r xs)
    → (z ≡ r) ⊎ Within z xs
insert_run-from r z [] w = Within-cases z r [] w
insert_run-from r z (x ∷ xs) w =
    elim (Bool-cases (lt_int r.meta.started_at_unix_ms x.meta.started_at_unix_ms)) [
      | inl after ↦ elim (Within-cases z x (insert_run r xs) (rw after at w)) [
        | inl same ↦ inr (subst (λ y. Within y (x ∷ xs)) (sym same) here)
        | inr later ↦ elim (insert_run-from r z xs later) [
          | inl new ↦ inl new
          | inr old ↦ inr (there old)
        ]
      ]
      | inr before ↦ Within-cases z r (x ∷ xs) (rw before at w)
    ]

insert_run-keeps :
    (r z : RunReport fixed) (xs : List (RunReport fixed))
    → (z ≡ r) ⊎ Within z xs
    → Within z (insert_run r xs)
insert_run-keeps r z [] (inl new) = subst (λ y. Within y (r ∷ [])) (sym new) here
insert_run-keeps r z [] (inr old) = elim old [ ]
insert_run-keeps r z (x ∷ xs) w =
    elim (Bool-cases (lt_int r.meta.started_at_unix_ms x.meta.started_at_unix_ms)) [
      | inl after ↦ rw after (elim w [
        | inl new ↦ there (insert_run-keeps r z xs (inl new))
        | inr old ↦ elim (Within-cases z x xs old) [
          | inl same ↦ subst (λ y. Within y (x ∷ insert_run r xs)) (sym same) here
          | inr later ↦ there (insert_run-keeps r z xs (inr later))
        ]
      ])
      | inr before ↦ rw before (elim w [
        | inl new ↦ subst (λ y. Within y (r ∷ x ∷ xs)) (sym new) here
        | inr old ↦ there old
      ])
    ]

insert_run-NewestFirst :
    (r : RunReport fixed) (xs : List (RunReport fixed))
    → NewestFirst fixed xs
    → NewestFirst fixed (insert_run r xs)
insert_run-NewestFirst r [] s = ((λ y w. elim w [ ]), tt)
insert_run-NewestFirst r (x ∷ xs) (first, rest) =
    elim (Bool-cases (lt_int r.meta.started_at_unix_ms x.meta.started_at_unix_ms)) [
      | inl after ↦ rw after (
        (λ y w. elim (insert_run-from r y xs w) [
          | inl new ↦
              subst (NotNewer fixed x) (sym new)
                (lt_int-asym r.meta.started_at_unix_ms x.meta.started_at_unix_ms after)
          | inr old ↦ first y old
        ]),
        insert_run-NewestFirst r xs rest,
      )
      | inr before ↦ rw before (
        (λ y w. elim (Within-cases y x xs w) [
          | inl same ↦ subst (NotNewer fixed r) (sym same) before
          | inr later ↦
              lt_int-between r.meta.started_at_unix_ms x.meta.started_at_unix_ms
                y.meta.started_at_unix_ms before (first y later)
        ]),
        (first, rest),
      )
    ]

count-insert_run :
    (test : RunReport fixed → Bool) (r : RunReport fixed) (xs : List (RunReport fixed))
    → count test (insert_run r xs) ≡ count test (r ∷ xs)
count-insert_run test r [] = refl
count-insert_run test r (x ∷ xs) = ground (arith, count-insert_run test r xs)

newest_first-Sorts : (xs : List (RunReport fixed)) → Sorts fixed xs (newest_first xs)
newest_first-Sorts [] = record {
  same_elements = λ r w. w;
  all_elements = λ r w. w;
  same_counts = λ test. refl;
  in_order = tt;
}
newest_first-Sorts (x ∷ xs) =
    let s = newest_first-Sorts xs in
    record {
      same_elements = λ r w. elim (insert_run-from x r (newest_first xs) w) [
        | inl new ↦ subst (λ y. Within y (x ∷ xs)) (sym new) here
        | inr old ↦ there (s.same_elements r old)
      ];
      all_elements = λ r w. elim (Within-cases r x xs w) [
        | inl same ↦ insert_run-keeps x r (newest_first xs) (inl same)
        | inr later ↦ insert_run-keeps x r (newest_first xs) (inr (s.all_elements r later))
      ];
      same_counts = λ test.
          count-insert_run test x (newest_first xs)
          ∙ ap (λ n. if test x then suc n else n) (s.same_counts test);
      in_order = insert_run-NewestFirst x (newest_first xs) s.in_order;
    }

-- No number is read.
abbrev nothing_parsed : String → Option ℤ
nothing_parsed text = none

abbrev no_query : String → String
no_query key = ""

abbrev submit_run : RunReport fixed → Request fixed
submit_run r = record { method = "POST"; path = "/ingest"; query = no_query; body = some r }

-- Two reports of one run, a request with no report, and a report that is not posted.
abbrev requests : List (Request fixed)
requests =
    submit_run (a_run "a" 10)
    ∷ submit_run (a_run "a" 30)
    ∷ record { method = "POST"; path = "/ingest"; query = no_query; body = none }
    ∷ record { method = "GET"; path = "/ingest"; query = no_query; body = some (a_run "b" 20) }
    ∷ []

abbrev served : Memory fixed × List (Response fixed)
served =
    serve_all fixed nothing_parsed nothing_parsed (memory_store fixed newest_first)
      (new_memory fixed) requests

abbrev the_answer : Response fixed
the_answer =
    (serve fixed nothing_parsed nothing_parsed (memory_store fixed newest_first) served.0
      (runs_request fixed "GET" no_query none)).1

fleet_view_example :
    Holds fixed served.0 (recorded fixed (no_runs fixed) requests served.1)
    × ((((memory_store fixed newest_first).list_runs served.0
              (filter_from_query nothing_parsed nothing_parsed no_query)
            ≡ none)
          × (the_answer ≡ list_failed fixed))
        ⊎ ((runs : List (RunReport fixed)) × (the_answer ≡ runs_json (map (row_of fixed) runs))
            × Lists fixed
                (recorded fixed (no_runs fixed) requests served.1)
                (filter_from_query nothing_parsed nothing_parsed no_query)
                runs))
fleet_view_example =
    fleet_view fixed nothing_parsed nothing_parsed (memory_store fixed newest_first) (Holds fixed)
      (memory_store-Implements fixed newest_first newest_first-Sorts) (new_memory fixed)
      (no_runs fixed) requests "GET" no_query none (new_memory-Holds fixed)

-- One run is held, as it was last posted.
newest_only : served.0 ≡ record { runs = ("a", a_run "a" 30) ∷ [] }
unfolding serve_all serve ingest new_memory save valid lookup insert
newest_only = refl

serve-Served_example :
    Served fixed nothing_parsed nothing_parsed
      (memory_store fixed newest_first)
      (new_memory fixed)
      (submit_run (a_run "a" 10))
      (serve fixed nothing_parsed nothing_parsed
        (memory_store fixed newest_first)
        (new_memory fixed)
        (submit_run (a_run "a" 10))).0
      (serve fixed nothing_parsed nothing_parsed
        (memory_store fixed newest_first)
        (new_memory fixed)
        (submit_run (a_run "a" 10))).1
serve-Served_example =
    serve-Served fixed nothing_parsed nothing_parsed (memory_store fixed newest_first)
      (new_memory fixed) (submit_run (a_run "a" 10))
