-- ===== src/Dashboard/Requests.antt =====
-- What a request to the dashboard does to its store.
use Prim.Native.String.{String}
use qoe_test_harness.Prelude.{
  ◌≡◌, inl, inr, refl, sym, Bool, true, false, ◌&&◌, Option, none, some, ok, err, ◌==◌,
  if◌then◌else◌, Bool-cases, Option-cases,
}
use qoe_test_harness.Prelude.Int.{ℤ}
use qoe_test_harness.Prelude.Texts.{str_eq, str_eq_iff}
use qoe_test_harness.Prelude.Maps.{lookup, text_key}
use qoe_test_harness.Prelude.Floats.{Float64}
use qoe_test_harness.Report.{RunReport, valid}
use qoe_test_harness.Dashboard.{Store, filter_from_query, ingest, api_runs, api_cdf}
use qoe_test_harness.Dashboard.Routes.{
  Request, Response, status_only, page, runs_json, cdf_json, panicked, on_runs, on_cdf, index,
  serve,
}

module _ (fl : Float64) where
  -- The report that a request submits: a valid one, posted to the ingest endpoint.
  unfoldable pub submission : Request fl → Option (RunReport fl)
  submission r = elim r.body [
    | none ↦ none
    | some rep ↦
        if str_eq r.path "/ingest" && str_eq r.method "POST" && valid fl rep then some rep else none
  ]

  -- The response 204.
  unfoldable pub accepted : Response fl → Bool
  accepted (status_only a) = a.status == 204
  accepted page = false
  accepted (runs_json rows) = false
  accepted (cdf_json c) = false
  accepted (panicked f) = false

  module _ (parse_int : String → Option ℤ) (atoi : String → Option ℤ) (store : Store fl) where
    -- What a request does to the store and answers.
    pub data Served (s : store.State) (r : Request fl) : store.State → Response fl → Type 0 where
      unchanged : {p : Response fl} → accepted p ≡ false → Served s r s p
      saved :
          {p : Response fl} {s' : store.State} (rep : RunReport fl)
          → submission r ≡ some rep
          → store.save_run s rep ≡ some s'
          → accepted p ≡ true
          → Served s r s' p

    -- The answers of the ingest endpoint.
    on_ingest-Served :
        (s : store.State) (method path : String) (query : String → String)
        (body : Option (RunReport fl))
        → str_eq path "/ingest" ≡ true
        → Served s
            (record { method = method; path = path; query = query; body = body })
            (ingest fl store s method body).0
            (status_only (ingest fl store s method body).1)
    unfolding ingest submission accepted
    on_ingest-Served s method path query none at_ingest = elim (Bool-cases (str_eq method "POST")) [
      | inr other ↦ rw other (unchanged refl)
      | inl post ↦ rw post (unchanged refl)
    ]
    on_ingest-Served s method path query (some rep) at_ingest =
        elim (Bool-cases (str_eq method "POST")) [
          | inr other ↦ rw other (unchanged refl)
          | inl post ↦ rw post (elim (Bool-cases (valid fl rep)) [
            | inr invalid ↦ rw invalid (unchanged refl)
            | inl fine ↦ rw fine (elim (Option-cases (store.save_run s rep)) [
              | inl failed ↦ rw failed (unchanged refl)
              | inr (s', kept) ↦ rw kept (saved rep (rw (at_ingest, post, fine) refl) kept refl)
            ])
          ])
        ]

    -- A request that gets the response 204 is a valid report posted to /ingest, and the store has saved it; a request with any other
    -- response leaves the store as it was.
    pub serve-Served :
        (s : store.State) (r : Request fl)
        → Served s r (serve fl parse_int atoi store s r).0 (serve fl parse_int atoi store s r).1
    unfolding serve lookup index accepted
    serve-Served s r = elim (Bool-cases (str_eq "/ingest" r.path)) [
      | inl at_ingest ↦
          rw (serve, lookup, at_ingest)
            (on_ingest-Served s r.method r.path r.query r.body
              ((str_eq_iff r.path "/ingest").1 (sym ((str_eq_iff "/ingest" r.path).0 at_ingest))))
      | inr elsewhere ↦
          rw (serve, lookup, elsewhere)
            (elim (Bool-cases (str_eq "/api/runs" r.path)) [
              | inl at_runs ↦
                  rw (serve, lookup, at_runs)
                    (elim (Option-cases
                      (api_runs fl store s (filter_from_query parse_int atoi r.query))) [
                        | inl failed ↦ rw (on_runs, failed) (unchanged refl)
                        | inr (rows, listed) ↦ rw (on_runs, listed) (unchanged refl)
                      ])
              | inr elsewhere' ↦
                  rw (serve, lookup, elsewhere')
                    (elim (Bool-cases (str_eq "/api/cdf" r.path)) [
                      | inl at_cdf ↦
                          rw (serve, lookup, at_cdf)
                            (elim (Option-cases
                              (api_cdf fl store s (filter_from_query parse_int atoi r.query))) [
                                | inl failed ↦ rw (on_cdf, failed) (unchanged refl)
                                | inr (ok c, merged) ↦ rw (on_cdf, merged) (unchanged refl)
                                | inr (err f, broken) ↦ rw (on_cdf, broken) (unchanged refl)
                              ])
                      | inr no_route ↦
                          rw (serve, lookup, no_route)
                            (elim (Bool-cases (str_eq r.path "/")) [
                              | inl root ↦ rw (serve, lookup, index, root) (unchanged refl)
                              | inr missing ↦ rw (serve, lookup, index, missing) (unchanged refl)
                            ])
                    ])
            ])
    ]
