-- ===== src/Dashboard/Routes.antt =====
-- dashboard/dashboard.go: Handler and index, and what the handlers write. The path of a request is one
-- that http.ServeMux does not redirect: it begins with "/" and is clean. The headers, the encoding in
-- JSON and the page's text (dashboard/html.go) are left out; a panic is recovered by net/http, which
-- writes nothing.
use Prim.Native.String.{String}
use qoe_test_harness.Prelude.{not, Option, none, some, List, [], ◌∷◌, ok, err, if◌then◌else◌}
use qoe_test_harness.Prelude.Int.{ℤ}
use qoe_test_harness.Prelude.Texts.{str_eq}
use qoe_test_harness.Prelude.Maps.{lookup, text_key}
use qoe_test_harness.Prelude.Floats.{Float64}
use qoe_test_harness.Compute.Histogram.{Fault}
use qoe_test_harness.Report.{RunReport}
use qoe_test_harness.Dashboard.{
  Store, Answer, answer, filter_from_query, RunRow, CdfResponse, ingest, api_runs, api_cdf,
}

module _ (fl : Float64) where
  -- `body` is what the JSON decoder makes of the body, and `query` the Get of the URL's query.
  pub record Request : Type 0 where
    pub method : String
    pub path : String
    pub query : String → String
    pub body : Option (RunReport fl)

  -- A status with a text, the page of index, or a value that is written as JSON.
  pub data Response : Type 0 where
    status_only : Answer fl → Response
    page : Response
    runs_json : List (RunRow fl) → Response
    cdf_json : CdfResponse fl → Response
    panicked : Fault → Response

  abbrev pub list_failed : Response
  list_failed = status_only (answer fl 500 "list failed")

  module _ (parse_int : String → Option ℤ) (atoi : String → Option ℤ) (store : Store fl) where
    abbrev pub Handler : Type 0
    Handler = store.State → Request → store.State × Response

    abbrev pub on_ingest : Handler
    on_ingest s r = let (s', a) = ingest fl store s r.method r.body in (s', status_only a)

    abbrev pub on_runs : Handler
    on_runs s r = elim (api_runs fl store s (filter_from_query parse_int atoi r.query)) [
      | none ↦ (s, list_failed)
      | some rows ↦ (s, runs_json rows)
    ]

    abbrev pub on_cdf : Handler
    on_cdf s r = elim (api_cdf fl store s (filter_from_query parse_int atoi r.query)) [
      | none ↦ (s, list_failed)
      | some c ↦ elim c [ ok v ↦ (s, cdf_json v) | err f ↦ (s, panicked f) ]
    ]

    unfoldable pub index : Handler
    index s r =
        if not (str_eq r.path "/")
        then (s, status_only (answer fl 404 "404 page not found"))
        else (s, page)

    -- The patterns but "/".
    abbrev pub routes : List (String × Handler)
    routes = ("/ingest", on_ingest) ∷ ("/api/runs", on_runs) ∷ ("/api/cdf", on_cdf) ∷ []

    -- A pattern that ends in a slash matches each path below it, and a longer one goes first.
    unfoldable pub serve : Handler
    unfolding index
    serve s r = elim (lookup r.path routes) [ some handler ↦ handler s r | none ↦ index s r ]

    -- One request after the other, with the responses.
    unfoldable pub serve_all : store.State → List Request → store.State × List Response
    unfolding serve
    serve_all s [] = (s, [])
    serve_all s (r ∷ rs) =
        let (s', response) = serve s r in
        let (s'', responses) = serve_all s' rs in (s'', response ∷ responses)
