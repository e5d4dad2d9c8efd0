-- ===== src/Storage/Postgres/Adapter.antt =====
-- storage/postgres.go: Save and List over database/sql. `encode` and `decode` are json.Marshal and
-- json.Unmarshal. A call that fails hands on its error only.
use Prim.Native.String.{String}
use qoe_test_harness.Prelude.{ℕ, Option, some, none, List, [], ◌∷◌, Result, ok, err, ◌>>=◌}
use qoe_test_harness.Prelude.Floats.{Float64}
use qoe_test_harness.Protocol.Bytes.{to_int64}
use qoe_test_harness.Net.Seams.{Failure}
use qoe_test_harness.Report.{RunReport}
use qoe_test_harness.Storage.{Filter}
use qoe_test_harness.Storage.Postgres.{Arg, text, int, bytes, list_query}

-- What QueryContext returns: for each row what Scan gives, and what Err gives after the last.
pub record Rows : Type 0 where
  pub scans : List (Result Failure (List ℕ))
  pub finish : Option Failure

-- *sql.DB: ExecContext with the database that it leaves, and QueryContext.
pub record Database : Type 1 where
  pub World : Type 0
  pub exec : World → String → List Arg → Result Failure World
  pub query : World → String → List Arg → Result Failure Rows

abbrev pub save_query : String
save_query =
    "\nINSERT INTO runs (run_id, started_at_ms, isp, region, device_class, verdict, provisioned_down_bps, payload)\nVALUES ($1, $2, $3, $4, $5, $6, $7, $8)\nON CONFLICT (run_id) DO UPDATE SET\n  started_at_ms = EXCLUDED.started_at_ms,\n  isp = EXCLUDED.isp,\n  region = EXCLUDED.region,\n  device_class = EXCLUDED.device_class,\n  verdict = EXCLUDED.verdict,\n  provisioned_down_bps = EXCLUDED.provisioned_down_bps,\n  payload = EXCLUDED.payload"

module _ (fl : Float64) where
  abbrev pub save_args : RunReport fl → List ℕ → List Arg
  save_args r payload =
      text r.meta.run_id
      ∷ int r.meta.started_at_unix_ms
      ∷ text r.meta.isp
      ∷ text r.meta.region
      ∷ text r.meta.device_class
      ∷ text r.result.verdict
      ∷ int (to_int64 r.meta.provisioned_down_bps)
      ∷ bytes payload
      ∷ []

  module _ (db : Database) where
    open db use {World, exec, query}

    unfoldable pub save_run :
        (RunReport fl → Result Failure (List ℕ)) → World → RunReport fl → Result Failure World
    save_run encode w r = do payload ← encode r; exec w save_query (save_args r payload)

    -- The loop of List over the rows.
    unfoldable pub read_rows :
        (List ℕ → Result Failure (RunReport fl))
        → List (Result Failure (List ℕ))
        → Result Failure (List (RunReport fl))
    read_rows decode [] = ok []
    read_rows decode (scan ∷ scans) = do
      payload ← scan
      r ← decode payload
      rest ← read_rows decode scans
      ok (r ∷ rest)

    unfoldable pub list_runs :
        (ℕ → String)
        → (List ℕ → Result Failure (RunReport fl))
        → World
        → Filter
        → Result Failure (List (RunReport fl))
    unfolding read_rows
    list_runs number decode w f = do
      let q = list_query number f
      rows ← query w q.0 q.1
      out ← read_rows decode rows.scans
      elim rows.finish [ none ↦ ok out | some e ↦ err e ]
