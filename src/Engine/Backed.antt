-- ===== src/Engine/Backed.antt =====
-- What a run's verdict rests on.
use Prim.Native.String.{String}
use qoe_test_harness.Prelude.{
  ℕ, ◌≡◌, ◌↔◌, ◌⊎◌, inl, inr, refl, Bool, true, false, Option, some, List, Result, ok, err,
}
use qoe_test_harness.Prelude.Floats.{Float64}
use qoe_test_harness.Compute.Histogram.{Fault, Histogram, quantile}
use qoe_test_harness.Compute.Verdict.{Thresholds, pass, inconclusive, evaluate}
use qoe_test_harness.Compute.Verdict.Direction.{DirectionPasses}
use qoe_test_harness.Compute.Verdict.Outcome.{Decided-ne, evaluate-pass_iff, evaluate_report}
use qoe_test_harness.Net.Seams.{Seams}
use qoe_test_harness.Prelude.Calls.{Runs, Post, Post->>=, Post->>, Post-return}
use qoe_test_harness.Batch.{checked}
use qoe_test_harness.Engine.{Config, Report, inputs_of, run_full}

pub checked_inv :
    (fl : Float64) (seams : Seams) {A : Type 0} (r : Result Fault A) (w : seams.World) {a : A}
    {w' : seams.World}
    → Runs (checked fl seams r) w a w'
    → r ≡ ok a
checked_inv fl seams (ok x) w p = cc
checked_inv fl seams (err f) w p = cc

module _ (fl : Float64) (seams : Seams) (sorted : List fl.F → List fl.F)
    (fixed : ℕ → fl.F → String) where
  open fl use {F, mul, le, of_ℕ, decimal}
  open seams use {World}

  -- The result is what Evaluate makes of inputs with these gates and measurements.
  pub record Judged (c : Config fl) (rep : Report fl) : Type 0 where
    pub ll : Histogram fl
    pub classic : Histogram fl
    pub has_ll : rep.down_ll ≡ some ll
    pub has_classic : rep.down_classic ≡ some classic
    pub median : F
    pub is_median : quantile fl classic (decimal 5 1) ≡ ok median
    pub solo : ℕ
    pub solo_p99 : F
    pub with_p99 : F
    pub judged :
        evaluate fl fixed
          (inputs_of fl seams sorted fixed
            (le
              (mul c.capacity_tolerance_frac (of_ℕ c.provisioned_down_bps))
              (of_ℕ rep.capacity_achieved_bps))
            (le c.standing_queue_min_ms median)
            rep.marking_survival
            ll
            classic
            solo
            rep.overshoot_achieved_bps
            solo_p99
            with_p99)
          c.thresholds
        ≡ ok rep.result

  pub run_full-Judged :
      (rounds : ℕ) (c : Config fl) → Post (Judged c) (run_full fl seams sorted fixed rounds c)
  unfolding run_full
  run_full-Judged rounds c = Post->> _ _ (
      Post->>= _ _ λ idle _ _ _. Post->>= _ _ λ base _ _ _. Post->> _ _ (
        Post->> _ _ (
          Post->>= _ _ λ achieved _ _ _. Post->> _ _ (
            Post->> _ _ (
              Post->>= _ _ λ ll _ _ _. Post->>= _ _ λ classic _ _ _.
                Post->>= _ _ λ median _ _ middle. Post->>= _ _ λ solo _ _ _.
                  Post->>= _ _ λ solo_leg _ _ _. Post->>= _ _ λ with_ll _ _ _.
                    Post->>= _ _ λ with_leg _ _ _. Post->> _ _ (
                      Post->>= _ _ λ solo_p99 _ _ _. Post->>= _ _ λ with_p99 _ _ _.
                        Post->>= _ _ λ result _ _ verdict. Post-return _ (record {
                          ll = ll.histogram;
                          classic = classic.histogram;
                          has_ll = refl;
                          has_classic = refl;
                          median = median;
                          is_median = checked_inv fl seams _ _ middle;
                          solo = solo;
                          solo_p99 = solo_p99;
                          with_p99 = with_p99;
                          judged = checked_inv fl seams _ _ verdict;
                        })))))))

  -- Whether the link reached the share of the tier that the configuration asks for.
  abbrev pub reached_tier : Config fl → Report fl → Bool
  reached_tier c rep =
      le (mul c.capacity_tolerance_frac (of_ℕ c.provisioned_down_bps))
        (of_ℕ rep.capacity_achieved_bps)

  -- What the telemetry of a passing run shows.
  pub record Backed (c : Config fl) (rep : Report fl) : Type 0 where
    pub capacity : reached_tier c rep ≡ true
    pub classic : Histogram fl
    pub has_classic : rep.down_classic ≡ some classic
    pub median : F
    pub is_median : quantile fl classic (decimal 5 1) ≡ ok median
    pub queue_stands : le c.standing_queue_min_ms median ≡ true
    pub separated :
        DirectionPasses fl (record { ll = rep.down_ll; classic = rep.down_classic }) c.thresholds
    pub marks_survive : le c.thresholds.marking_survival_min rep.marking_survival ≡ true

  same_direction :
      {th : Thresholds fl} {low classic : Histogram fl} {a b : Option (Histogram fl)}
      → a ≡ some low
      → b ≡ some classic
      → DirectionPasses fl (record { ll = some low; classic = some classic }) th
      → DirectionPasses fl (record { ll = a; classic = b }) th
  same_direction p q d = rw (p, q) d

  -- When a run that returns a report passes, the report itself shows it: the link reached the tier, the median of the classic
  -- histogram is at least the standing queue's, the two histograms separate the probes, and the marks survive.
  pub run_full-pass :
      (rounds : ℕ) (c : Config fl) (w w' : World) (rep : Report fl)
      → Runs (run_full fl seams sorted fixed rounds c) w rep w'
      → rep.result.verdict ≡ pass
      → Backed c rep
  run_full-pass rounds c w w' rep p passed =
      let j = (run_full-Judged rounds c).holds w rep w' p in
      let d = (evaluate-pass_iff fl fixed _ _ _ j.judged).0 passed in
      record {
        capacity = d.trusted.capacity;
        classic = j.classic;
        has_classic = j.has_classic;
        median = j.median;
        is_median = j.is_median;
        queue_stands = d.trusted.standing_queue;
        separated = same_direction j.has_ll j.has_classic d.downstream;
        marks_survive = d.marks_survive;
      }

  -- A run that returns a report is inconclusive exactly when the link did not reach the tier or the median of the report's classic
  -- histogram is not at least the standing queue's, whatever share of the marks survived.
  pub run_full-inconclusive_iff :
      (rounds : ℕ) (c : Config fl) (w w' : World) (rep : Report fl)
      → Runs (run_full fl seams sorted fixed rounds c) w rep w'
      → (classic : Histogram fl) × (median : F) × (rep.down_classic ≡ some classic)
        × (quantile fl classic (decimal 5 1) ≡ ok median)
        × ((rep.result.verdict ≡ inconclusive)
            ↔ ((reached_tier c rep ≡ false) ⊎ (le c.standing_queue_min_ms median ≡ false)))
  run_full-inconclusive_iff rounds c w w' rep p =
      let j = (run_full-Judged rounds c).holds w rep w' p in
      (
        j.classic,
        j.median,
        j.has_classic,
        j.is_median,
        elim (evaluate_report fl fixed _ _ _ j.judged).1 [
          | inl (untrusted, inc, _) ↦ (
            (λ _. gate_failed _ _ (λ a b. untrusted (record {
              right_link = refl;
              capacity = a;
              standing_queue = b;
              no_drift = refl;
              not_noisy = refl;
            }))),
            (λ _. inc),
          )
          | inr graded ↦ (
            (λ i. absurd (Decided-ne _ graded.verdict-Decided i)),
            (λ g. absurd (no_gate graded.trusted.capacity graded.trusted.standing_queue g)),
          )
        ],
      )
    where
      gate_failed : (a b : Bool) → (a ≡ true → b ≡ true → ⊥) → (a ≡ false) ⊎ (b ≡ false)
      gate_failed true true h = absurd (h refl refl)
      gate_failed true false h = inr refl
      gate_failed false b h = inl refl

      no_gate : {a b : Bool} → a ≡ true → b ≡ true → (a ≡ false) ⊎ (b ≡ false) → ⊥
      no_gate p q (inl r) = cc
      no_gate p q (inr r) = cc
