-- ===== src/Cli/Accepted.antt =====
-- The dashboard accepts what the client submits.
use Prim.Native.String.{String, ◌++◌, len}
use text.Mathlib.TextPositions.{len-append}
use qoe_test_harness.Prelude.{
  ℕ, ◌≡◌, ◌⊎◌, inl, inr, refl, sym, ap, ap₂, subst, ◌∙◌, true, false, not, ◌&&◌, Option, none, some,
  List, Result, ok, ok-injective, arith, Bool-cases,
}
use qoe_test_harness.Prelude.Int.{ℤ}
use qoe_test_harness.Prelude.Texts.{str_eq, str_eq_iff}
use qoe_test_harness.Prelude.Floats.{Float64}
use qoe_test_harness.Prelude.Calls.{Runs, Runs_inv}
use qoe_test_harness.Compute.Verdict.{Verdict, pass, fail, inconclusive}
use qoe_test_harness.Compute.Verdict.Outcome.{evaluate_report}
use qoe_test_harness.Net.Seams.{Failure, Seams}
use qoe_test_harness.Engine.{Report, fill_defaults, run_full}
use qoe_test_harness.Engine.Backed.{run_full-Judged}
use qoe_test_harness.Report.{RunReport, valid}
use qoe_test_harness.Dashboard.{Store, ingest}
use qoe_test_harness.Cli.{RunOpts, config_of, make_report, validate, Posted, submit}

run_id-some : (t : String) → str_eq ("cli-" ++ t) "" ≡ false
run_id-some t = elim (Bool-cases (str_eq ("cli-" ++ t) "")) [
  | inr none_empty ↦ none_empty
  | inl empty ↦
      absurd
        (omega (arith, sym (len-append "cli-" t) ∙ ap len ((str_eq_iff ("cli-" ++ t) "").0 empty)))
]

named : (v : Verdict) → (v ≡ inconclusive) ⊎ ((v ≡ pass) ⊎ (v ≡ fail)) → str_eq v "" ≡ false
named v (inl e) = ap (λ v. str_eq v "") e
named v (inr (inl e)) = ap (λ v. str_eq v "") e
named v (inr (inr e)) = ap (λ v. str_eq v "") e

module _ (fl : Float64) (number : ℤ → String) (seams : Seams) (sorted : List fl.F → List fl.F)
    (fixed : ℕ → fl.F → String) where
  judged_verdict :
      (rounds : ℕ) (o : RunOpts) (w w' : seams.World) (rep : Report fl)
      → Runs (run_full fl seams sorted fixed rounds (fill_defaults fl (config_of fl o))) w rep w'
      → str_eq rep.result.verdict "" ≡ false
  judged_verdict rounds o w w' rep run =
      let j =
        (run_full-Judged fl seams sorted fixed rounds (fill_defaults fl (config_of fl o))).holds w
          rep w' run in
      named rep.result.verdict (elim (evaluate_report fl fixed _ _ _ j.judged).1 [
        | inl (_, inc, _) ↦ inl inc
        | inr graded ↦ inr graded.verdict-Decided
      ])

  make_report-valid :
      (o : RunOpts) (nanos ms : ℤ) (rep : Report fl)
      → str_eq rep.result.verdict "" ≡ false
      → valid fl (make_report fl number o nanos ms rep) ≡ true
  unfolding make_report valid
  make_report-valid o nanos ms rep e = ap₂ (λ a b. not a && not b) (run_id-some (number nanos)) e

  -- The report of a run is valid.
  validate-valid :
      (rounds : ℕ) (o : RunOpts) (nanos ms : ℤ) (w w' : seams.World) (rr : RunReport fl)
      → Runs (validate fl number seams sorted fixed rounds o nanos ms) w rr w'
      → valid fl rr ≡ true
  unfolding validate
  validate-valid rounds o nanos ms w w' rr run =
      let (rep, w1, ran, made) =
        Runs_inv (run_full fl seams sorted fixed rounds (fill_defaults fl (config_of fl o))) _ w
          run in
      subst (λ r. valid fl r ≡ true) (ok-injective _ rr (ap (λ x. x.0) made))
        (make_report-valid o nanos ms rep (judged_verdict rounds o w w1 rep ran))

  -- http.Post to the ingest handler of a dashboard: `decode` is its JSON decoder.
  abbrev pub post_to :
      (store : Store fl)
      → (List ℕ → Option (RunReport fl))
      → (ℕ → String)
      → String
      → String
      → List ℕ
      → store.State
      → Posted fl × store.State
  post_to store decode status_text url type body s =
      let (s', a) = ingest fl store s "POST" (decode body) in
      (ok (a.status, status_text a.status), s')

  -- When a run has ended in a report, the report encodes to a body that the dashboard decodes to the same report, and its store saves
  -- this report, then a submission of the report returns no error and leaves the store as that save does.
  pub submit_accepted :
      (rounds : ℕ) (o : RunOpts) (nanos ms : ℤ) (w w' : seams.World) (rr : RunReport fl)
      → Runs (validate fl number seams sorted fixed rounds o nanos ms) w rr w'
      → (store : Store fl) (s s' : store.State) (encode : RunReport fl → Result Failure (List ℕ))
        (decode : List ℕ → Option (RunReport fl)) (status_text : ℕ → String) (url : String)
        (body : List ℕ)
      → encode rr ≡ ok body
      → decode body ≡ some rr
      → store.save_run s rr ≡ some s'
      → submit fl encode (post_to store decode status_text) url rr s ≡ (none, s')
  unfolding submit ingest
  submit_accepted rounds o nanos ms w w' rr run store s s' encode decode status_text url body
        encoded decoded saved =
      let good = validate-valid rounds o nanos ms w w' rr run in
      rw (encoded, submit) (rw (decoded, good, saved) refl)
