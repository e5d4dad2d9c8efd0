-- ===== src/Compute/Verdict/Direction.antt =====
-- When one direction passes, and what the gates say.
use Prim.Native.String.{String}
use qoe_test_harness.Prelude.{
  ℕ, ◌≡◌, ◌≢◌, inl, inr, ◌↔◌, refl, sym, ap, subst, ◌∙◌, Bool, true, false, ◌&&◌, ◌||◌, some, List,
  [], ◌∷◌, Result, ok, ◌>>=◌, ◌==◌, if◌then◌else◌, arith, Bool-cases, Option-cases, >>=-eq-ok,
  ok-injective,
}
use qoe_test_harness.Prelude.Texts.{str_eq, str_eq_iff}
use qoe_test_harness.Prelude.Floats.{Float64}
use qoe_test_harness.Compute.Histogram.{Fault, Histogram, total, quantile}
use qoe_test_harness.Compute.Verdict.{
  Verdict, pass, fail, inconclusive, both_pass, all_pass, Thresholds, DirectionInputs, Inputs,
  untrusted, eval_direction, p99_check,
}

fail-ne-pass : fail ≢ pass
fail-ne-pass e = cc (ap (str_eq fail) e)

pub inconclusive-ne-pass : inconclusive ≢ pass
inconclusive-ne-pass e = cc (ap (str_eq inconclusive) e)

pub fail-ne-inconclusive : fail ≢ inconclusive
fail-ne-inconclusive e = cc (ap (str_eq fail) e)

pub chosen : (b : Bool) → ((if b then pass else fail) ≡ pass) ↔ (b ≡ true)
chosen true = ((λ e. refl), (λ e. refl))
chosen false = ((λ e. absurd (fail-ne-pass e)), (λ e. cc))

pub both_pass_iff : (a b : Verdict) → (both_pass a b ≡ pass) ↔ ((a ≡ pass) × (b ≡ pass))
unfolding both_pass
both_pass_iff a b = (to, from)
  where
    to : both_pass a b ≡ pass → (a ≡ pass) × (b ≡ pass)
    to e =
        let h = (chosen (str_eq a pass && str_eq b pass)).0 e in
        ((str_eq_iff a pass).0 (ground arith), (str_eq_iff b pass).0 (ground arith))

    from : (a ≡ pass) × (b ≡ pass) → both_pass a b ≡ pass
    from (p, q) = rw (p, q) refl

pub all_pass_cons :
    (v : Verdict) (vs : List Verdict)
    → (all_pass (v ∷ vs) ≡ pass) ↔ ((v ≡ pass) × (all_pass vs ≡ pass))
unfolding all_pass
all_pass_cons v vs = elim (Bool-cases (str_eq v pass)) [
  | inl e ↦ rw e ((λ h. ((str_eq_iff v pass).0 e, h)), (λ h. h.1))
  | inr e ↦ rw e ((λ h. absurd (fail-ne-pass h)), (λ h. cc (e, (str_eq_iff v pass).1 h.0)))
]

pub all_pass_nil : all_pass [] ≡ pass
unfolding all_pass
all_pass_nil = refl

module _ (fl : Float64) where
  open fl use {F, le, lt, decimal}

  -- No gate raises a caveat.
  pub record Trusted (inp : Inputs fl) : Type 0 where
    pub right_link : inp.wrong_link ≡ false
    pub capacity : inp.capacity_ok ≡ true
    pub standing_queue : inp.standing_queue_ok ≡ true
    pub no_drift : inp.baseline_drifted ≡ false
    pub not_noisy : inp.no_harm_noisy ≡ false

  -- Both probes have samples, the low-latency p99 is below its bound and the classic p99 above its.
  pub record DirectionPasses (d : DirectionInputs fl) (th : Thresholds fl) : Type 0 where
    pub low : Histogram fl
    pub classic : Histogram fl
    pub has_low : d.ll ≡ some low
    pub has_classic : d.classic ≡ some classic
    pub low_samples : total fl low ≢ 0
    pub classic_samples : total fl classic ≢ 0
    pub low_p99 : F
    pub classic_p99 : F
    pub is_low_p99 : quantile fl low (decimal 99 2) ≡ ok low_p99
    pub is_classic_p99 : quantile fl classic (decimal 99 2) ≡ ok classic_p99
    pub stays_low : lt low_p99 th.ll_p99_max_ms ≡ true
    pub inflates : lt th.classic_p99_min_ms classic_p99 ≡ true

  pub Trusted→untrusted : (inp : Inputs fl) → Trusted inp → untrusted fl inp ≡ []
  unfolding untrusted
  Trusted→untrusted inp t = ground arith

  pub untrusted→Trusted : (inp : Inputs fl) → untrusted fl inp ≡ [] → Trusted inp
  unfolding untrusted
  untrusted→Trusted inp e = ground arith

  module _ (fixed : ℕ → F → String) where
    first :
        (a b : Verdict × String)
        → ◌≡◌ {A = Result Fault (Verdict × String)} (ok a) (ok b)
        → a.0 ≡ b.0
    first a b e = ap (λ r. r.0) (ok-injective a b e)

    missing :
        (detail : String) (d : DirectionInputs fl) (th : Thresholds fl) (r : Verdict × String)
        → ◌≡◌ {A = Result Fault (Verdict × String)} (ok (fail, detail)) (ok r)
        → ¬ DirectionPasses d th
        → (r.0 ≡ pass) ↔ DirectionPasses d th
    missing detail d th r e never =
        ((λ p. absurd (fail-ne-pass (first (fail, detail) r e ∙ p))), (λ w. absurd (never w)))

    module _ (name : String) (low classic : Histogram fl) (d : DirectionInputs fl)
        (th : Thresholds fl) (dl : d.ll ≡ some low) (dc : d.classic ≡ some classic)
        (nl : total fl low ≢ 0) (nc : total fl classic ≢ 0) where
      passes :
          (p q : F)
          → quantile fl low (decimal 99 2) ≡ ok p
          → quantile fl classic (decimal 99 2) ≡ ok q
          → (lt p th.ll_p99_max_ms && lt th.classic_p99_min_ms q) ≡ true
          → DirectionPasses d th
      passes p q ep eq g = record {
        low = low;
        classic = classic;
        has_low = dl;
        has_classic = dc;
        low_samples = nl;
        classic_samples = nc;
        low_p99 = p;
        classic_p99 = q;
        is_low_p99 = ep;
        is_classic_p99 = eq;
        stays_low = ground arith;
        inflates = ground arith;
      }

      decided :
          DirectionPasses d th
          → (p q : F) → quantile fl low (decimal 99 2) ≡ ok p
          → quantile fl classic (decimal 99 2) ≡ ok q
          → (lt p th.ll_p99_max_ms && lt th.classic_p99_min_ms q) ≡ true
      decided w p q ep eq =
          let a : w.low_p99 ≡ p = cc (dl, w.has_low, ep, w.is_low_p99) in
          let b : w.classic_p99 ≡ q = cc (dc, w.has_classic, eq, w.is_classic_p99) in
          both (subst (λ z. lt z th.ll_p99_max_ms ≡ true) a w.stays_low)
            (subst (λ z. lt th.classic_p99_min_ms z ≡ true) b w.inflates)
        where
          both : {x y : Bool} → x ≡ true → y ≡ true → (x && y) ≡ true
          both h k = rw h k

      -- The status of a direction with both histograms present and not empty.
      measured :
          (r : Verdict × String)
          → (quantile fl low (decimal 99 2) >>= λ p.
              quantile fl classic (decimal 99 2) >>= λ q. ok (p99_check fl fixed name th p q))
            ≡ ok r
          → (r.0 ≡ pass) ↔ DirectionPasses d th
      measured r e =
          let (p, ep, rest) = >>=-eq-ok (quantile fl low (decimal 99 2)) _ e in
          let (q, eq, last) = >>=-eq-ok (quantile fl classic (decimal 99 2)) _ rest in
          let good = lt p th.ll_p99_max_ms && lt th.classic_p99_min_ms q in
          let status = first (p99_check fl fixed name th p q) r last in
          (
            (λ h. passes p q ep eq ((chosen good).0 (status ∙ h))),
            (λ w. sym status ∙ (chosen good).1 (decided w p q ep eq)),
          )

    -- A direction passes exactly when its p99s separate the two probes.
    pub eval_direction_iff :
        (name : String) (d : DirectionInputs fl) (th : Thresholds fl) (r : Verdict × String)
        → eval_direction fl fixed name d th ≡ ok r
        → (r.0 ≡ pass) ↔ DirectionPasses d th
    unfolding eval_direction
    eval_direction_iff name d th r e = elim (Option-cases d.ll) [
      | inl n ↦ missing _ d th r (rw (n, eval_direction) at e) (λ w. cc (n, w.has_low))
      | inr (low, dl) ↦ elim (Option-cases d.classic) [
        | inl n ↦ missing _ d th r (rw (dl, n, eval_direction) at e) (λ w. cc (n, w.has_classic))
        | inr (classic, dc) ↦ elim (Bool-cases (total fl low == 0 || total fl classic == 0)) [
          | inl empty ↦
              missing _ d th r (rw (dl, dc, empty, eval_direction) at e)
                (λ w. emptied low classic w dl dc empty)
          | inr filled ↦
              measured name low classic d th dl dc (λ z. ground arith) (λ z. ground arith) r
                (rw (dl, dc, filled, eval_direction) at e)
        ]
      ]
    ]
      where
        emptied :
            (low classic : Histogram fl)
            → DirectionPasses d th
            → d.ll ≡ some low
            → d.classic ≡ some classic
            → (total fl low == 0 || total fl classic == 0) ≡ true
            → ⊥
        emptied low classic w dl dc z =
            let a : w.low ≡ low = cc (dl, w.has_low) in
            let b : w.classic ≡ classic = cc (dc, w.has_classic) in
            ground (arith, w.low_samples, w.classic_samples, ap (total fl) a, ap (total fl) b)
