-- ===== src/Dashboard/Fleet.antt =====
-- The dashboard over a store that keeps the contract of a Store.
use Prim.Native.String.{String}
use qoe_test_harness.Prelude.{
  ◌≡◌, ◌⊎◌, inl, inr, refl, ap, ◌∙◌, true, false, Option, none, some, List, [], ◌∷◌, map,
  if◌then◌else◌, Option-cases,
}
use qoe_test_harness.Prelude.Int.{ℤ}
use qoe_test_harness.Prelude.Texts.{str_eq}
use qoe_test_harness.Prelude.Maps.{lookup, text_key}
use qoe_test_harness.Prelude.Floats.{Float64}
use qoe_test_harness.Report.{RunReport}
use qoe_test_harness.Storage.{Filter}
use qoe_test_harness.Storage.Contract.{Runs, with_run, Lists}
use qoe_test_harness.Dashboard.{Store, filter_from_query, row_of, api_runs}
use qoe_test_harness.Dashboard.Routes.{
  Request, Response, runs_json, list_failed, on_runs, serve, serve_all,
}
use qoe_test_harness.Dashboard.Requests.{
  submission, accepted, Served, unchanged, saved, serve-Served,
}

module _ (fl : Float64) where
  -- A store that keeps the contract; `Holds` says which runs a state holds.
  pub record Implements (store : Store fl) (Holds : store.State → Runs fl → Type 0) : Type 0 where
    pub save_run-Holds :
        (s : store.State) (v : Runs fl) (r : RunReport fl) (s' : store.State)
        → Holds s v
        → store.save_run s r ≡ some s'
        → Holds s' (with_run fl r v)
    pub list_runs-Lists :
        (s : store.State) (v : Runs fl) (f : Filter) (rs : List (RunReport fl))
        → Holds s v
        → store.list_runs s f ≡ some rs
        → Lists fl v f rs

  -- The runs after the requests: those before them, and each submitted report that was accepted.
  unfoldable pub recorded : Runs fl → List (Request fl) → List (Response fl) → Runs fl
  unfolding submission accepted
  recorded v [] ps = v
  recorded v (r ∷ rs) [] = v
  recorded v (r ∷ rs) (p ∷ ps) =
      recorded
        (elim (submission fl r) [
          | some rep ↦ if accepted fl p then with_run fl rep v else v
          | none ↦ v
        ])
        rs ps

  -- The request for the runs of a query.
  abbrev pub runs_request : String → (String → String) → Option (RunReport fl) → Request fl
  runs_request method query body = record {
    method = method;
    path = "/api/runs";
    query = query;
    body = body;
  }

  module _ (parse_int : String → Option ℤ) (atoi : String → Option ℤ) (store : Store fl) where
    module _ (Holds : store.State → Runs fl → Type 0) (impl : Implements store Holds) where
      -- A request keeps the store and its runs in step.
      Served-Holds :
          (s : store.State) (v : Runs fl) (r : Request fl) (s' : store.State) (p : Response fl)
          → Served fl parse_int atoi store s r s' p
          → Holds s v
          → Holds s' (elim (submission fl r) [
            | some rep ↦ if accepted fl p then with_run fl rep v else v
            | none ↦ v
          ])
      Served-Holds s v r s' p (unchanged refused) h = elim (Option-cases (submission fl r)) [
        | inl none_sent ↦ rw none_sent h
        | inr (rep, sent) ↦ rw (sent, refused) h
      ]
      Served-Holds s v r s' p (saved rep sent kept taken) h =
          rw (sent, taken) (impl.save_run-Holds s v rep s' h kept)

      serve_all-Holds :
          (s : store.State) (v : Runs fl) (rs : List (Request fl))
          → Holds s v
          → Holds
              (serve_all fl parse_int atoi store s rs).0
              (recorded v rs (serve_all fl parse_int atoi store s rs).1)
      unfolding serve_all recorded
      serve_all-Holds s v [] h = h
      serve_all-Holds s v (r ∷ rs) h =
          let (s', p) = serve fl parse_int atoi store s r in
          serve_all-Holds s' _ rs
            (Served-Holds s v r s' p (serve-Served fl parse_int atoi store s r) h)

      at_runs :
          (s : store.State) (r : Request fl)
          → str_eq "/ingest" r.path ≡ false
          → str_eq "/api/runs" r.path ≡ true
          → serve fl parse_int atoi store s r ≡ on_runs fl parse_int atoi store s r
      unfolding serve lookup
      at_runs s r elsewhere here_now = rw (serve, lookup, elsewhere, here_now) refl

      runs_answer :
          (s : store.State) (v : Runs fl) (method : String) (query : String → String)
          (body : Option (RunReport fl))
          → Holds s v
          → ((store.list_runs s (filter_from_query parse_int atoi query) ≡ none)
              × ((serve fl parse_int atoi store s (runs_request method query body)).1
                  ≡ list_failed fl))
            ⊎ ((runs : List (RunReport fl)) × ((serve fl parse_int atoi store s
                    (runs_request method query body)).1
                  ≡ runs_json (map (row_of fl) runs))
                × Lists fl v (filter_from_query parse_int atoi query) runs)
      unfolding serve lookup api_runs
      runs_answer s v method query body h =
          let f = filter_from_query parse_int atoi query in
          let routed = at_runs s (runs_request method query body) refl refl in
          elim (Option-cases (store.list_runs s f)) [
            | inl failed ↦ inl (failed, ap (λ x. x.1) routed ∙ rw (on_runs, api_runs, failed) refl)
            | inr (runs, listed) ↦ inr (
              runs,
              ap (λ x. x.1) routed ∙ rw (on_runs, api_runs, listed) refl,
              impl.list_runs-Lists s v f runs h listed,
            )
          ]

      -- Over a store that keeps the contract and holds some runs, the dashboard after any requests holds those runs and each report
      -- that was posted, valid and answered by 204, the last with its run id; and it answers a request for the runs of a query with
      -- "list failed" if the store fails to list them, and with the rows of a list that is an answer to the query's filter if not.
      pub fleet_view :
          (s : store.State) (v : Runs fl) (rs : List (Request fl)) (method : String)
          (query : String → String) (body : Option (RunReport fl))
          → Holds s v
          → (let (s', ps) = serve_all fl parse_int atoi store s rs in
              let answered =
                (serve fl parse_int atoi store s' (runs_request method query body)).1 in
              Holds s' (recorded v rs ps)
              × (((store.list_runs s' (filter_from_query parse_int atoi query) ≡ none)
                    × (answered ≡ list_failed fl))
                  ⊎ ((runs : List (RunReport fl)) × (answered ≡ runs_json (map (row_of fl) runs))
                      × Lists fl (recorded v rs ps) (filter_from_query parse_int atoi query) runs)))
      fleet_view s v rs method query body h =
          let (s', ps) = serve_all fl parse_int atoi store s rs in
          let held = serve_all-Holds s v rs h in
          (held, runs_answer s' (recorded v rs ps) method query body held)
