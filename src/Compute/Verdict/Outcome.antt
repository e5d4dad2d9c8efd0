-- ===== src/Compute/Verdict/Outcome.antt =====
-- What `evaluate` decides.
use Prim.Native.String.{String}
use qoe_test_harness.Prelude.{
  ℕ, ◌≡◌, ◌≢◌, ◌⊎◌, inl, inr, ◌↔◌, refl, sym, ap, subst, ◌∙◌, true, List, [], ◌∷◌, ok, arith, Bool,
  false, if◌then◌else◌, Bool-cases, >>=-eq-ok, ok-injective,
}
use qoe_test_harness.Prelude.Texts.{str_eq, concat}
use qoe_test_harness.Prelude.Floats.{Float64}
use qoe_test_harness.Compute.Verdict.{
  Verdict, pass, fail, inconclusive, SubResult, RunResult, both_pass, all_pass, Thresholds, Inputs,
  untrusted, eval_direction, marking_check, throughput_ratio, latency_increase, no_harm_check,
  judge, evaluate,
}
use qoe_test_harness.Compute.Verdict.Direction.{
  inconclusive-ne-pass, fail-ne-inconclusive, chosen, both_pass_iff, all_pass_cons, all_pass_nil,
  Trusted, DirectionPasses, Trusted→untrusted, untrusted→Trusted, eval_direction_iff,
}

-- Pass or fail.
abbrev pub Decided : Verdict → Type 0
Decided v = (v ≡ pass) ⊎ (v ≡ fail)

pub Decided-ne : (v : Verdict) → Decided v → v ≢ inconclusive
Decided-ne v (inl p) e = inconclusive-ne-pass (sym e ∙ p)
Decided-ne v (inr p) e = fail-ne-inconclusive (sym p ∙ e)

chosen-Decided : (b : Bool) → Decided (if b then pass else fail)
chosen-Decided true = inl refl
chosen-Decided false = inr refl

all_pass-Decided : (vs : List Verdict) → Decided (all_pass vs)
unfolding all_pass
all_pass-Decided [] = inl refl
all_pass-Decided (v ∷ vs) = elim (Bool-cases (str_eq v pass)) [
  | inl p ↦ rw p (all_pass-Decided vs)
  | inr p ↦ rw p (inr refl)
]

three_pass :
    (a b c : Verdict) → (all_pass (a ∷ b ∷ c ∷ []) ≡ pass) ↔ ((a ≡ pass) × (b ≡ pass) × (c ≡ pass))
three_pass a b c = (to, from)
  where
    to : all_pass (a ∷ b ∷ c ∷ []) ≡ pass → (a ≡ pass) × (b ≡ pass) × (c ≡ pass)
    to e =
        let (ea, bc) = (all_pass_cons a (b ∷ c ∷ [])).0 e in
        let (eb, rest) = (all_pass_cons b (c ∷ [])).0 bc in
        (ea, eb, ((all_pass_cons c []).0 rest).0)

    from : (a ≡ pass) × (b ≡ pass) × (c ≡ pass) → all_pass (a ∷ b ∷ c ∷ []) ≡ pass
    from (ea, eb, ec) =
        (all_pass_cons a (b ∷ c ∷ [])).1
          (ea, (all_pass_cons b (c ∷ [])).1 (eb, (all_pass_cons c []).1 (ec, all_pass_nil)))

-- The overall verdict of the four parts.
four_pass :
    (a b m n : Verdict)
    → (all_pass (both_pass a b ∷ m ∷ n ∷ []) ≡ pass)
      ↔ ((a ≡ pass) × (b ≡ pass) × (m ≡ pass) × (n ≡ pass))
four_pass a b m n = (to, from)
  where
    to :
        all_pass (both_pass a b ∷ m ∷ n ∷ []) ≡ pass
        → (a ≡ pass) × (b ≡ pass) × (m ≡ pass) × (n ≡ pass)
    to e =
        let (ab, em, en) = (three_pass (both_pass a b) m n).0 e in
        let (ea, eb) = (both_pass_iff a b).0 ab in (ea, eb, em, en)

    from :
        (a ≡ pass) × (b ≡ pass) × (m ≡ pass) × (n ≡ pass)
        → all_pass (both_pass a b ∷ m ∷ n ∷ []) ≡ pass
    from (ea, eb, em, en) =
        (three_pass (both_pass a b) m n).1 ((both_pass_iff a b).1 (ea, eb), em, en)

module _ (fl : Float64) (fixed : ℕ → fl.F → String) where
  open fl use {F, le, lt}

  -- What a passing run has shown.
  pub record Demonstrated (inp : Inputs fl) (th : Thresholds fl) : Type 0 where
    pub trusted : Trusted fl inp
    pub downstream : DirectionPasses fl inp.down th
    pub upstream : DirectionPasses fl inp.up th
    pub marks_survive : le th.marking_survival_min inp.marking_survival ≡ true
    pub throughput_kept : le th.no_harm_throughput_min (throughput_ratio fl fixed inp) ≡ true
    pub latency_kept : le (latency_increase fl fixed inp) th.no_harm_latency_margin_ms ≡ true

  judge_iff :
      (inp : Inputs fl) (th : Thresholds fl) (r : RunResult)
      → judge fl fixed inp th ≡ ok r
      → Trusted fl inp
      → (r.verdict ≡ pass) ↔ Demonstrated inp th
  unfolding judge
  judge_iff inp th r e t =
      let (d, ed, rest) = >>=-eq-ok (eval_direction fl fixed "downstream" inp.down th) _ e in
      let (u, eu, last) = >>=-eq-ok (eval_direction fl fixed "upstream" inp.up th) _ rest in
      let v = ap (λ x. x.verdict) (ok-injective _ r last) in
      let down = eval_direction_iff fl fixed "downstream" inp.down th d ed in
      let up = eval_direction_iff fl fixed "upstream" inp.up th u eu in
      let four =
        four_pass d.0 u.0 (marking_check fl fixed inp th).status
          (no_harm_check fl fixed inp th).status in
      (
        (λ p.
            let (a, b, m, n) = four.0 (v ∙ p) in
            let harmless = (chosen _).0 n in
            record {
              trusted = t;
              downstream = down.0 a;
              upstream = up.0 b;
              marks_survive = (chosen _).0 m;
              throughput_kept = ground arith;
              latency_kept = ground arith;
            }),
        (λ w.
            sym v
            ∙ four.1 (
              down.1 w.downstream,
              up.1 w.upstream,
              (chosen _).1 w.marks_survive,
              (chosen _).1 (ground arith),
            )),
      )

  pub gates :
      (inp : Inputs fl)
      → (untrusted fl inp ≡ []) ⊎ ((c : String) × (cs : List String) × (untrusted fl inp ≡ c ∷ cs))
  gates inp = list_cases (untrusted fl inp)
    where
      list_cases : (l : List String) → (l ≡ []) ⊎ ((c : String) × (cs : List String) × (l ≡ c ∷ cs))
      list_cases [] = inl refl
      list_cases (c ∷ cs) = inr (c, cs, refl)

  -- A report that `evaluate` returns has the verdict pass exactly when no gate raised a caveat, both directions show the separation
  -- of the two probes, the marks survive, and classic traffic keeps its throughput and its latency.
  pub evaluate-pass_iff :
      (inp : Inputs fl) (th : Thresholds fl) (r : RunResult)
      → evaluate fl fixed inp th ≡ ok r
      → (r.verdict ≡ pass) ↔ Demonstrated inp th
  unfolding evaluate
  evaluate-pass_iff inp th r e = elim (gates inp) [
    | inl clear ↦ judge_iff inp th r (rw (clear, evaluate) at e) (untrusted→Trusted fl inp clear)
    | inr (c, cs, raised) ↦
        let v = ap (λ x. x.verdict) (ok-injective _ r (rw (raised, evaluate) at e)) in
        (
          (λ p. absurd (inconclusive-ne-pass (v ∙ p))),
          (λ w. cc (raised, Trusted→untrusted fl inp w.trusted)),
        )
  ]

  -- Classic traffic keeps its throughput and its latency.
  abbrev pub Unharmed : Inputs fl → Thresholds fl → Type 0
  Unharmed inp th =
      (le th.no_harm_throughput_min (throughput_ratio fl fixed inp) ≡ true)
      × (le (latency_increase fl fixed inp) th.no_harm_latency_margin_ms ≡ true)

  -- A report of three sub-results, by name, each a pass or a fail: a pass exactly when what it checks
  -- was shown. The verdict is a pass if they all are, and a fail otherwise.
  pub record Graded (inp : Inputs fl) (th : Thresholds fl) (r : RunResult) : Type 0 where
    pub trusted : Trusted fl inp
    pub working : SubResult
    pub marking : SubResult
    pub no_harm : SubResult
    pub all_of_them : r.sub_results ≡ working ∷ marking ∷ no_harm ∷ []
    pub working_name : working.name ≡ "working"
    pub marking_name : marking.name ≡ "marking_survival"
    pub no_harm_name : no_harm.name ≡ "no_harm"
    pub working-Decided : Decided working.status
    pub working_iff :
        (working.status ≡ pass) ↔ (DirectionPasses fl inp.down th × DirectionPasses fl inp.up th)
    pub marking-Decided : Decided marking.status
    pub marking_iff :
        (marking.status ≡ pass) ↔ (le th.marking_survival_min inp.marking_survival ≡ true)
    pub no_harm-Decided : Decided no_harm.status
    pub no_harm_iff : (no_harm.status ≡ pass) ↔ Unharmed inp th
    pub verdict-Decided : Decided r.verdict
    pub verdict_iff :
        (r.verdict ≡ pass)
        ↔ ((working.status ≡ pass) × (marking.status ≡ pass) × (no_harm.status ≡ pass))

  abbrev pub Reported : Inputs fl → Thresholds fl → RunResult → Type 0
  Reported inp th r =
      (r.caveats ≡ untrusted fl inp)
      × (((¬ Trusted fl inp) × (r.verdict ≡ inconclusive) × (r.sub_results ≡ [])) ⊎ Graded inp th r)

  judge-Reported :
      (inp : Inputs fl) (th : Thresholds fl) (r : RunResult)
      → judge fl fixed inp th ≡ ok r
      → untrusted fl inp ≡ []
      → Reported inp th r
  unfolding judge both_pass
  judge-Reported inp th r e clear =
      let (d, ed, rest) = >>=-eq-ok (eval_direction fl fixed "downstream" inp.down th) _ e in
      let (u, eu, last) = >>=-eq-ok (eval_direction fl fixed "upstream" inp.up th) _ rest in
      let down = eval_direction_iff fl fixed "downstream" inp.down th d ed in
      let up = eval_direction_iff fl fixed "upstream" inp.up th u eu in
      subst (Reported inp th) (ok-injective _ r last) (
        sym clear,
        inr (record {
          trusted = untrusted→Trusted fl inp clear;
          working = record {
            name = "working";
            status = both_pass d.0 u.0;
            detail = concat (d.1 ∷ "; " ∷ u.1 ∷ []);
          };
          marking = marking_check fl fixed inp th;
          no_harm = no_harm_check fl fixed inp th;
          all_of_them = refl;
          working_name = refl;
          marking_name = refl;
          no_harm_name = refl;
          working-Decided = chosen-Decided _;
          working_iff = (
            (λ p. let (a, b) = (both_pass_iff d.0 u.0).0 p in (down.0 a, up.0 b)),
            (λ w. (both_pass_iff d.0 u.0).1 (down.1 w.0, up.1 w.1)),
          );
          marking-Decided = chosen-Decided _;
          marking_iff = chosen _;
          no_harm-Decided = chosen-Decided _;
          no_harm_iff = (
            (λ p. let both = (chosen _).0 p in (ground arith, ground arith)),
            (λ (k, l). (chosen _).1 (ground arith)),
          );
          verdict-Decided = all_pass-Decided (
              both_pass d.0 u.0
              ∷ (marking_check fl fixed inp th).status
              ∷ (no_harm_check fl fixed inp th).status
              ∷ []);
          verdict_iff = three_pass _ _ _;
        }),
      )

  -- A report that `evaluate` returns has the caveats of the gates and no other. If a gate raised one, the verdict is
  -- inconclusive and there are no sub-results. Otherwise there are the three sub-results by name, each a pass exactly when what
  -- it checks was shown and else a fail, and the verdict is a pass if they all are, and a fail if not.
  pub evaluate_report :
      (inp : Inputs fl) (th : Thresholds fl) (r : RunResult)
      → evaluate fl fixed inp th ≡ ok r
      → Reported inp th r
  unfolding evaluate
  evaluate_report inp th r e = elim (gates inp) [
    | inl clear ↦ judge-Reported inp th r (rw (clear, evaluate) at e) clear
    | inr (c, cs, raised) ↦
        subst (Reported inp th) (ok-injective _ r (rw (raised, evaluate) at e))
          (sym raised, inl ((λ t. cc (raised, Trusted→untrusted fl inp t)), refl, refl))
  ]
