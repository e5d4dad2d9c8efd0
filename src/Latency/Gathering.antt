-- ===== src/Latency/Gathering.antt =====
-- What probe of cli/cmd/qoe-latency/main.go makes of the echoes that it receives.
use Prim.Native.String.{String}
use qoe_test_harness.Prelude.{
  count, ℕ, ◌+◌, ◌≡◌, inl, inr, refl, ap, ◌∙◌, Bool, true, false, not, ◌&&◌, List, [], ◌∷◌, length,
  length-append, if◌then◌else◌, arith, Bool-cases,
}
use qoe_test_harness.Prelude.Floats.{Float64}
use qoe_test_harness.Net.Conn.{Echo}
use qoe_test_harness.Batch.{has_ect1, rtt_ms}
use qoe_test_harness.Latency.{
  odd, has_nqb, count_if, Rtt, Scenario, Gathered, nothing, gather, percent, marks_of,
}

module _ (fl : Float64) where
  open fl use {F}

  -- What is gathered once the echoes `es` are received.
  abbrev pub gathered : Gathered fl → List Echo → Gathered fl
  gathered g [] = g
  gathered g (e ∷ es) = gathered (gather fl g e) es

  -- A number that grows by one with each echo that has `test`.
  gathered-count :
      (pick : Gathered fl → ℕ) (test : Echo → Bool)
      → ((g : Gathered fl) (e : Echo) → pick (gather fl g e) ≡ pick g + (if test e then 1 else 0))
      → (g : Gathered fl) (es : List Echo) → pick (gathered g es) ≡ pick g + count test es
  gathered-count pick test step g [] = omega arith
  gathered-count pick test step g (e ∷ es) =
      ground (arith, gathered-count pick test step (gather fl g e) es, step g e)

  -- The two classes are told apart, and the marks of the low-latency one counted.
  pub record Separated (sent : List Echo) (s : Scenario fl) : Type 0 where
    pub low : s.n_ll ≡ count (λ e. odd e.seq) sent
    pub others : s.n_cl ≡ count (λ e. not (odd e.seq)) sent
    pub up_ect :
        s.m.up_ect ≡ percent fl s.n_ll (count (λ e. odd e.seq && has_ect1 e.tos_observed) sent)
    pub up_nqb :
        s.m.up_nqb ≡ percent fl s.n_ll (count (λ e. odd e.seq && has_nqb e.tos_observed) sent)
    pub up_ce : s.m.up_ce ≡ percent fl s.n_ll (count (λ e. odd e.seq && e.ce_seen) sent)
    pub dn_ect :
        s.m.dn_ect ≡ percent fl s.n_ll (count (λ e. odd e.seq && has_ect1 e.down_tos_observed) sent)
    pub dn_nqb :
        s.m.dn_nqb ≡ percent fl s.n_ll (count (λ e. odd e.seq && has_nqb e.down_tos_observed) sent)
    pub dn_ce : s.m.dn_ce ≡ percent fl s.n_ll (count (λ e. odd e.seq && e.down_ce) sent)

  abbrev pub scenario_of : String → Rtt fl → Rtt fl → Gathered fl → Scenario fl
  scenario_of name classic ll g = record {
    name = name;
    classic = classic;
    ll = ll;
    n_cl = length g.cl;
    n_ll = length g.ll;
    m = marks_of fl (length g.ll) g;
  }

  step_ll :
      (g : Gathered fl) (e : Echo)
      → length ((gather fl g e).ll) ≡ length g.ll + (if odd e.seq then 1 else 0)
  unfolding gather
  step_ll g e = elim (Bool-cases (odd e.seq)) [
    | inl l ↦ rw l (length-append g.ll (rtt_ms fl e ∷ []))
    | inr c ↦ rw c (omega arith)
  ]

  step_cl :
      (g : Gathered fl) (e : Echo)
      → length ((gather fl g e).cl) ≡ length g.cl + (if not (odd e.seq) then 1 else 0)
  unfolding gather
  step_cl g e = elim (Bool-cases (odd e.seq)) [
    | inl l ↦ rw l (omega arith)
    | inr c ↦ rw c (length-append g.cl (rtt_ms fl e ∷ []))
  ]

  abbrev if_odd : Bool → ℕ → Echo → ℕ
  if_odd seen n e = if odd e.seq then count_if seen n else n

  step_marks :
      (g : Gathered fl) (e : Echo)
      → ((gather fl g e).up_ect ≡ if_odd (has_ect1 e.tos_observed) g.up_ect e)
        × ((gather fl g e).up_nqb ≡ if_odd (has_nqb e.tos_observed) g.up_nqb e)
        × ((gather fl g e).up_ce ≡ if_odd e.ce_seen g.up_ce e)
        × ((gather fl g e).dn_ect ≡ if_odd (has_ect1 e.down_tos_observed) g.dn_ect e)
        × ((gather fl g e).dn_nqb ≡ if_odd (has_nqb e.down_tos_observed) g.dn_nqb e)
        × ((gather fl g e).dn_ce ≡ if_odd e.down_ce g.dn_ce e)
  unfolding gather
  step_marks g e = elim (Bool-cases (odd e.seq)) [
    | inl l ↦ rw l (refl, refl, refl, refl, refl, refl)
    | inr c ↦ rw c (refl, refl, refl, refl, refl, refl)
  ]

  -- A count of the low-latency echoes that have `seen`.
  marked_count :
      (pick : Gathered fl → ℕ) (seen : Echo → Bool)
      → ((g : Gathered fl) (e : Echo) → pick (gather fl g e) ≡ if_odd (seen e) (pick g) e)
      → (sent es : List Echo) → ((test : Echo → Bool) → count test es ≡ count test sent)
      → pick (nothing fl) ≡ 0
      → pick (gathered (nothing fl) es) ≡ count (λ e. odd e.seq && seen e) sent
  marked_count pick seen step sent es same empty =
      let test : Echo → Bool = λ e. odd e.seq && seen e in
      omega (
        arith,
        empty,
        same test,
        gathered-count pick test (λ g e. step g e ∙ one_more (odd e.seq) (seen e) (pick g))
            (nothing fl) es,
      )
    where
      one_more :
          (low seen : Bool) (n : ℕ)
          → (if low then count_if seen n else n) ≡ n + (if low && seen then 1 else 0)
      one_more true true n = refl
      one_more true false n = omega arith
      one_more false seen n = omega arith

  pub scenario_of-Separated :
      (sent es : List Echo) (name : String) (classic ll : Rtt fl)
      → ((test : Echo → Bool) → count test es ≡ count test sent)
      → Separated sent (scenario_of name classic ll (gathered (nothing fl) es))
  scenario_of-Separated sent es name classic ll same =
      let n = length ((gathered (nothing fl) es).ll) in
      record {
        low = omega (
          arith,
          gathered-count (λ g. length g.ll) (λ e. odd e.seq) step_ll (nothing fl) es,
          same (λ e. odd e.seq),
        );
        others = omega (
          arith,
          gathered-count (λ g. length g.cl) (λ e. not (odd e.seq)) step_cl (nothing fl) es,
          same (λ e. not (odd e.seq)),
        );
        up_ect = ap (percent fl n) (
            marked_count (λ g. g.up_ect) (λ e. has_ect1 e.tos_observed) (λ g e. (step_marks g e).0)
              sent es same refl);
        up_nqb = ap (percent fl n) (
            marked_count (λ g. g.up_nqb) (λ e. has_nqb e.tos_observed) (λ g e. (step_marks g e).1)
              sent es same refl);
        up_ce = ap (percent fl n) (
            marked_count (λ g. g.up_ce) (λ e. e.ce_seen) (λ g e. (step_marks g e).2) sent es same
              refl);
        dn_ect = ap (percent fl n) (
            marked_count (λ g. g.dn_ect) (λ e. has_ect1 e.down_tos_observed)
              (λ g e. (step_marks g e).3) sent es same refl);
        dn_nqb = ap (percent fl n) (
            marked_count (λ g. g.dn_nqb) (λ e. has_nqb e.down_tos_observed)
              (λ g e. (step_marks g e).4) sent es same refl);
        dn_ce = ap (percent fl n) (
            marked_count (λ g. g.dn_ce) (λ e. e.down_ce) (λ g e. (step_marks g e).5) sent es same
              refl);
      }
