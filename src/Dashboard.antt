-- ===== src/Dashboard.antt =====
-- dashboard/dashboard.go: the handlers over a store. The store's two calls are a record of functions,
-- what the JSON decoder makes of a body is a parameter, and so is what strconv.ParseInt and
-- strconv.Atoi make of a text. `none` as a body's report is a decoding error, with its text left out.
pub mod Cohort
pub mod Routes
pub mod Requests
pub mod Fleet
pub mod OverMemory
use Prim.Native.String.{String}
use qoe_test_harness.Prelude.{
  ℕ, Bool, not, Option, none, some, List, [], ◌∷◌, map, Result, ok, err, ◌>>=◌, length,
  if◌then◌else◌,
}
use qoe_test_harness.Prelude.Int.{ℤ, pos}
use qoe_test_harness.Prelude.Texts.{str_eq}
use qoe_test_harness.Prelude.Floats.{Float64}
use qoe_test_harness.Compute.Histogram.{
  Fault, MergeError, edges_mismatch, panic, Histogram, new_default_histogram, merge, total,
}
use qoe_test_harness.Compute.Cdf.{CdfPoint, cdf}
use qoe_test_harness.Report.{RunReport, valid}
use qoe_test_harness.Storage.{Filter}

abbrev pub or_zero : Option ℤ → ℤ
or_zero none = pos 0
or_zero (some z) = z

-- `get` is the query's Get.
unfoldable pub filter_from_query :
    (String → Option ℤ) → (String → Option ℤ) → (String → String) → Filter
filter_from_query parse_int atoi get = record {
  isp = get "isp";
  region = get "region";
  device_class = get "device";
  verdict = get "verdict";
  since_unix_ms = or_zero (parse_int (get "since"));
  max_results = or_zero (atoi (get "limit"));
}

module _ (fl : Float64) where
  open fl use {F}

  -- storage.Store: `none` is an error.
  pub record Store : Type 1 where
    pub State : Type 0
    pub save_run : State → RunReport fl → Option State
    pub list_runs : State → Filter → Option (List (RunReport fl))

  -- A handler's answer: a status code, with the error's text if there is one.
  pub record Answer : Type 0 where
    pub status : ℕ
    pub text : String

  abbrev pub answer : ℕ → String → Answer
  answer status text = record { status = status; text = text }

  unfoldable pub ingest :
      (store : Store) → store.State → String → Option (RunReport fl) → store.State × Answer
  ingest store s method body =
      if not (str_eq method "POST") then (s, answer 405 "POST only") else (elim body [
        | none ↦ (s, answer 400 "bad json: ")
        | some rep ↦
            if not (valid fl rep)
            then (s, answer 400 "invalid report: need schema, run_id, verdict")
            else (elim (store.save_run s rep) [
              | none ↦ (s, answer 500 "save failed")
              | some s' ↦ (s', answer 204 "")
            ])
      ])

  pub record RunRow : Type 0 where
    pub run_id : String
    pub started_at_unix_ms : ℤ
    pub isp : String
    pub region : String
    pub device_class : String
    pub verdict : String
    pub base_rtt_ms : F
    pub marking_survival : F

  abbrev pub row_of : RunReport fl → RunRow
  row_of run = record {
    run_id = run.meta.run_id;
    started_at_unix_ms = run.meta.started_at_unix_ms;
    isp = run.meta.isp;
    region = run.meta.region;
    device_class = run.meta.device_class;
    verdict = run.result.verdict;
    base_rtt_ms = run.telemetry.base_rtt_ms;
    marking_survival = run.telemetry.marking_survival;
  }

  -- `none` is the answer 500, "list failed".
  unfoldable pub api_runs : (store : Store) → store.State → Filter → Option (List RunRow)
  api_runs store s f = elim (store.list_runs s f) [
    | none ↦ none
    | some runs ↦ some (map row_of runs)
  ]

  pub record CdfResponse : Type 0 where
    pub runs : ℕ
    pub samples_ll : ℕ
    pub samples_classic : ℕ
    pub ll : Option (List (CdfPoint fl))
    pub classic : Option (List (CdfPoint fl))

  -- `if o != nil { _ = h.Merge(o) }`: the error is dropped, a panic is not.
  unfoldable pub merge_into : Histogram fl → Option (Histogram fl) → Result Fault (Histogram fl)
  merge_into h none = ok h
  merge_into h (some o) = elim (merge fl h o) [
    | ok h' ↦ ok h'
    | err e ↦ elim e [ edges_mismatch ↦ ok h | panic f ↦ err f ]
  ]

  unfoldable pub merge_runs :
      Histogram fl → Histogram fl → List (RunReport fl) → Result Fault (Histogram fl × Histogram fl)
  merge_runs ll cl [] = ok (ll, cl)
  merge_runs ll cl (run ∷ runs) = do
    ll' ← merge_into ll run.telemetry.down_ll
    cl' ← merge_into cl run.telemetry.down_classic
    merge_runs ll' cl' runs

  -- The body of `api_cdf` for the runs that the store lists.
  unfoldable pub cdf_response : List (RunReport fl) → Result Fault CdfResponse
  cdf_response runs = do
    (ll, cl) ← merge_runs (new_default_histogram fl) (new_default_histogram fl) runs
    ll_points ← cdf fl ll
    cl_points ← cdf fl cl
    ok (record {
      runs = length runs;
      samples_ll = total fl ll;
      samples_classic = total fl cl;
      ll = ll_points;
      classic = cl_points;
    })

  -- `none` is the answer 500, "list failed".
  unfoldable pub api_cdf :
      (store : Store) → store.State → Filter → Option (Result Fault CdfResponse)
  api_cdf store s f = elim (store.list_runs s f) [
    | none ↦ none
    | some runs ↦ some (cdf_response runs)
  ]
