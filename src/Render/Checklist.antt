-- ===== src/Render/Checklist.antt =====
-- The checks that the technician sees of a verdict.
use Prim.Native.String.{String, ◌++◌ as ◌#◌}
use package.text.Mathlib.TextLemmas.{append_assoc}
use qoe_test_harness.Prelude.{
  ℕ, ◌≡◌, ◌≢◌, ◌⊎◌, ◌↔◌, inl, inr, refl, sym, ap, ap₂, subst, ◌∙◌, Bool, true, List, [], ◌∷◌, map,
  ok, get_or,
}
use qoe_test_harness.Prelude.Floats.{Float64}
use qoe_test_harness.Prelude.Texts.{str_eq, concat}
use qoe_test_harness.Prelude.Maps.{lookup, insert}
use qoe_test_harness.Compute.Verdict.{
  Verdict, pass, fail, inconclusive, RunResult, SubResult, Thresholds, Inputs, evaluate,
}
use qoe_test_harness.Compute.Verdict.Direction.{DirectionPasses}
use qoe_test_harness.Compute.Verdict.Outcome.{Decided, Unharmed, evaluate_report}
use qoe_test_harness.Report.{RunReport}
use qoe_test_harness.Render.{glyph, field_order, statuses, check_glyph, field}

-- The glyphs of the checklist.
abbrev pub checks : RunResult → List String
checks res = map (check_glyph res) field_order

-- The same of a list of sub-results.
abbrev checks_of : RunResult → List SubResult → List String
checks_of res subs = checks (record res { sub_results = subs })

of_none : (res : RunResult) → res.sub_results ≡ [] → checks res ≡ "—" ∷ "—" ∷ "—" ∷ []
unfolding check_glyph statuses glyph lookup
of_none res e = ap (checks_of res) e

abbrev named : SubResult → String → SubResult
named s name = record s { name = name }

in_order :
    (res : RunResult) (a b c : SubResult)
    → checks_of res (named a "working" ∷ named b "marking_survival" ∷ named c "no_harm" ∷ [])
      ≡ glyph a.status ∷ glyph b.status ∷ glyph c.status ∷ []
unfolding check_glyph statuses lookup insert
in_order res a b c = refl

of_three :
    (res : RunResult) (a b c : SubResult)
    → res.sub_results ≡ a ∷ b ∷ c ∷ []
    → (a.name ≡ "working") × (b.name ≡ "marking_survival") × (c.name ≡ "no_harm")
    → checks res ≡ glyph a.status ∷ glyph b.status ∷ glyph c.status ∷ []
of_three res a b c e (p, q, r) =
    ap (checks_of res) e
    ∙ ap₂ (λ x l. checks_of res (named a x ∷ l)) p (ap₂ (λ y z. named b y ∷ named c z ∷ []) q r)
    ∙ in_order res a b c

nth : {xs ys : List String} (i : ℕ) → xs ≡ ys → get_or xs i "" ≡ get_or ys i ""
nth i e = ap (λ l. get_or l i "") e

-- A tick for what holds, a cross for what does not.
abbrev pub Marks : Type 0 → String → Type 0
Marks P mark = (P × (mark ≡ "✓")) ⊎ ((¬ P) × (mark ≡ "✗"))

glyph-Marks : (P : Type 0) (v : Verdict) → Decided v → (v ≡ pass) ↔ P → Marks P (glyph v)
unfolding glyph
glyph-Marks P v (inl p) holds = inl (holds.0 p, ap glyph p)
glyph-Marks P v (inr f) holds = inr ((λ x. inconclusive-or-fail (sym f ∙ holds.1 x)), ap glyph f)
  where
    inconclusive-or-fail : fail ≢ pass
    inconclusive-or-fail e = cc (ap (str_eq fail) e)

-- The line of a check.
abbrev pub line : String → String → String
line mark name = concat ("  " ∷ mark ∷ "  " ∷ name ∷ "\n" ∷ [])

abbrev pub three_lines : String → String → String → String
three_lines working marking no_harm = concat (
    line working "Low latency is working"
    ∷ line marking "Low-latency tags survived the network"
    ∷ line no_harm "Classic traffic is unharmed"
    ∷ [])

-- The text has the lines of the three checks, one after the other, with these marks.
pub record Lines (content working marking no_harm : String) : Type 0 where
  pub before : String
  pub after : String
  pub is : content ≡ before # (three_lines working marking no_harm # after)

module _ (fl : Float64) (fixed : ℕ → fl.F → String) where
  open fl use {le}

  -- The marks of a run whose result `evaluate` returned.
  abbrev pub Marked : Inputs fl → Thresholds fl → RunResult → String → String → String → Type 0
  Marked inp th r working marking no_harm =
      ((r.verdict ≡ inconclusive) × (working ≡ "—") × (marking ≡ "—") × (no_harm ≡ "—"))
      ⊎ (Decided r.verdict
          × Marks (DirectionPasses fl inp.down th × DirectionPasses fl inp.up th) working
          × Marks (le th.marking_survival_min inp.marking_survival ≡ true) marking
          × Marks (Unharmed fl fixed inp th) no_harm)

  marks_lem :
      (inp : Inputs fl) (th : Thresholds fl) (r : RunResult)
      → evaluate fl fixed inp th ≡ ok r
      → Marked inp th r
          (check_glyph r "working")
          (check_glyph r "marking_survival")
          (check_glyph r "no_harm")
  marks_lem inp th r e = elim (evaluate_report fl fixed inp th r e).1 [
    | inl (untrusted, inc, nothing) ↦
        let dashes = of_none r nothing in inl (inc, nth 0 dashes, nth 1 dashes, nth 2 dashes)
    | inr g ↦
        let same =
          of_three r g.working g.marking g.no_harm g.all_of_them
            (g.working_name, g.marking_name, g.no_harm_name) in
        inr (
          g.verdict-Decided,
          subst (Marks _) (sym (nth 0 same))
              (glyph-Marks _ g.working.status g.working-Decided g.working_iff),
          subst (Marks _) (sym (nth 1 same))
              (glyph-Marks _ g.marking.status g.marking-Decided g.marking_iff),
          subst (Marks _) (sym (nth 2 same))
              (glyph-Marks _ g.no_harm.status g.no_harm-Decided g.no_harm_iff),
        )
  ]

module _ (contains : String → String → Bool) (fl : Float64) (fixed : ℕ → fl.F → String)
    (upper : String → String) where
  field-Lines :
      (rr : RunReport fl)
      → Lines
          (field contains fl fixed upper rr)
          (check_glyph rr.result "working")
          (check_glyph rr.result "marking_survival")
          (check_glyph rr.result "no_harm")
  unfolding field lookup
  field-Lines rr = record {
    before = _;
    after = _;
    is = sym (append_assoc "LLD / L4S validation\n" _ _);
  }

  -- The technician's view of a report whose result `evaluate` returned has the lines of the three checks, one after the other.
  -- Their marks are dashes when the run is inconclusive. Otherwise each is a tick when what the check is about was shown and a
  -- cross when it was not: both directions separate the probes, the marks survive, classic traffic is unharmed.
  pub checks_lem :
      (rr : RunReport fl) (inp : Inputs fl) (th : Thresholds fl)
      → evaluate fl fixed inp th ≡ ok rr.result
      → (working : String) × (marking : String) × (no_harm : String) × Lines
          (field contains fl fixed upper rr)
          working
          marking
          no_harm
        × Marked fl fixed inp th rr.result working marking no_harm
  checks_lem rr inp th e = (_, _, _, field-Lines rr, marks_lem fl fixed inp th rr.result e)
