-- ===== src/Engine/Ending.antt =====
-- A run over the simulated path ends.
use Prim.Native.String.{String}
use qoe_test_harness.Prelude.{
  ℕ, ◌-◌, ◌<◌, ◌≡◌, refl, subst, ◌∙◌, true, false, inl, inr, Result-cases, List, [], ◌∷◌, some, ok,
  Result, length, arith, map, Bool, leb, ◌&&◌,
}
use mathlib.Core.Option.{some-injective}
use qoe_test_harness.Prelude.Floats.{Float64, zero_f, one_f, Ordered, Rounded}
use qoe_test_harness.Compute.Histogram.{
  Fault, Histogram, default_edges_ms, new_histogram, new_default_histogram, observe, quantile,
}
use qoe_test_harness.Compute.Histogram.Search.{Ascending}
use qoe_test_harness.Compute.Histogram.Counts.{
  IsHistogram, observe_all, observe_all_counts, new_histogram-IsHistogram,
}
use qoe_test_harness.Compute.Histogram.Returns.{Covered, quantile_returns}
use qoe_test_harness.Compute.Stats.{base_rtt, base_rtt_returns, working_delta}
use qoe_test_harness.Compute.Verdict.Returns.{DirectionCovered, evaluate_returns}
use qoe_test_harness.Net.Loopback.{Loopback, set_rate_bps, stop}
use qoe_test_harness.Net.Loopback.Simulator.{simulator}
use qoe_test_harness.Prelude.Calls.{Runs, Ends, Ends->>=, Ends-after, Ends-then, Ends-return}
use qoe_test_harness.Batch.{checked, batch_probe, observe_deltas, hist_batch}
use qoe_test_harness.Engine.{Config, Report, run_full}
use qoe_test_harness.Batch.Simulated.{batch_probe-Summarised}

module _ (fl : Float64) where
  open fl use {F, le, mul, of_ℕ, decimal, truncate}

  -- No echo is pending.
  abbrev pub Idle : {A : Type 0} → A → Loopback → Type 0
  Idle a l = l.pending ≡ []

  pub batch_probe-Ends :
      (rounds marking n : ℕ) (l : Loopback)
      → l.pending ≡ []
      → n < rounds
      → Ends Idle (batch_probe fl simulator rounds marking n) l
  batch_probe-Ends rounds marking n l idle h =
      let (p, l', run, emptied, _) = batch_probe-Summarised fl rounds marking n l idle h in
      record { value = p; after = l'; ends = run; has = emptied }

  pub checked-Runs :
      {A : Type 0} (r : Result Fault A) (l : Loopback) (a : A)
      → r ≡ ok a
      → Runs (checked fl simulator r) l a l
  checked-Runs r l a e = rw (e, checked) refl

  module _ (ordered : Ordered fl) (rounded : Rounded fl) where
    -- The test that no number is above the next.
    abbrev in_order : List ℕ → Bool
    in_order [] = true
    in_order (m ∷ []) = true
    in_order (m ∷ n ∷ ns) = leb m n && in_order (n ∷ ns)

    tenths-Ascending : (ns : List ℕ) → in_order ns ≡ true → Ascending fl (map (λ n. decimal n 1) ns)
    tenths-Ascending [] e = tt
    tenths-Ascending (m ∷ []) e = tt
    tenths-Ascending (m ∷ n ∷ ns) e = (
      rounded.decimal_mono m n 1 (ground (arith, e)),
      tenths-Ascending (n ∷ ns) (ground (arith, e)),
    )

    default_edges-Ascending : Ascending fl (default_edges_ms fl)
    default_edges-Ascending =
        tenths-Ascending
          (0 ∷ 5 ∷ 10 ∷ 15 ∷ 20 ∷ 30 ∷ 40 ∷ 50 ∷ 75 ∷ 100 ∷ 125 ∷ 150 ∷ 200 ∷ 250 ∷ 300 ∷ 400 ∷ 500
            ∷ 750 ∷ 1000 ∷ 1500 ∷ 2500 ∷ 5000 ∷ 10000 ∷ [])
          refl

    -- `observe_deltas` observes the samples less the baseline.
    observe_deltas-eq :
        (h : Histogram fl) (base : F) (samples : List F)
        → observe_deltas fl h base samples
          ≡ observe_all fl h (map (λ s. working_delta fl s base) samples)
    unfolding observe_deltas observe_all
    observe_deltas-eq h base [] = refl
    observe_deltas-eq h base (s ∷ samples) =
        elim (Result-cases (observe fl h (working_delta fl s base))) [
          | inl (h', e) ↦ rw (e, observe_deltas) (observe_deltas-eq h' base samples)
          | inr (f, e) ↦ rw (e, observe_deltas) refl
        ]

    pub observed :
        (samples : List F) (base : F)
        → (h : Histogram fl) × (observe_deltas fl (new_default_histogram fl) base samples ≡ ok h)
          × IsHistogram fl h
    unfolding new_default_histogram
    observed samples base =
        let empty = new_histogram fl (default_edges_ms fl) in
        let (h, e, w, _, _, _) =
          observe_all_counts fl ordered empty (map (λ s. working_delta fl s base) samples)
            (new_histogram-IsHistogram fl (default_edges_ms fl) default_edges-Ascending
              (omega arith)).0 in
        (h, observe_deltas-eq empty base samples ∙ e, w)

    hist_batch-Ends :
        (rounds marking n : ℕ) (base : F) (l : Loopback)
        → l.pending ≡ []
        → n < rounds
        → Ends
            (λ m l'. (l'.pending ≡ []) × IsHistogram fl m.histogram)
            (hist_batch fl simulator rounds marking n base)
            l
    unfolding hist_batch
    hist_batch-Ends rounds marking n base l idle h =
        Ends->>= _ _ _ (batch_probe-Ends rounds marking n l idle h) λ p l' idle'.
          let (h, e, w) = observed p.rtts base in
          Ends-after _ _ _
            (checked-Runs (observe_deltas fl (new_default_histogram fl) base p.rtts) l' h e)
            (Ends-return _ _ (idle', w))

    IsHistogram→Covered : (h : Histogram fl) → IsHistogram fl h → Covered fl h
    IsHistogram→Covered h w = record {
      some_edge = w.some_edge;
      enough_edges = omega (arith, w.same_length);
    }

    both_covered :
        (ll classic : Histogram fl)
        → IsHistogram fl ll
        → IsHistogram fl classic
        → DirectionCovered fl (record { ll = some ll; classic = some classic })
    both_covered ll classic p q = record {
      low_covered = λ h e. subst (Covered fl) (some-injective ll h e) (IsHistogram→Covered ll p);
      classic_covered =
          λ h e. subst (Covered fl) (some-injective classic h e) (IsHistogram→Covered classic q);
    }

    pub quantile-Runs :
        (h : Histogram fl) (p : F) (l : Loopback)
        → IsHistogram fl h
        → (q : F) × Runs (checked fl simulator (quantile fl h p)) l q l
    quantile-Runs h p l w =
        let (q, e) = quantile_returns fl h p (IsHistogram→Covered h w) in
        (q, checked-Runs (quantile fl h p) l q e)

    -- No echo is pending and the load is off.
    abbrev pub AtRest : Loopback → Type 0
    AtRest l = (l.pending ≡ []) × (l.loaded ≡ false) × (l.bps ≡ 0)

    module _ (sorted : List F → List F) (fixed : ℕ → F → String)
        (same_number : (xs : List F) → length (sorted xs) ≡ length xs)
        (in_range : (xs : List F) (p : F)
          → le p p ≡ true
          → le p (zero_f fl) ≡ false
          → le (one_f fl) p ≡ false
          → 0 < length xs
          → (le (zero_f fl) (mul p (of_ℕ (length xs - 1))) ≡ true)
            × (truncate (mul p (of_ℕ (length xs - 1))) < length xs)) where
      run_full-Ends :
          (rounds : ℕ) (c : Config fl) (l : Loopback)
          → c.baseline_probes < rounds
          → c.loaded_probes < rounds
          → le c.baseline_pct c.baseline_pct ≡ true
          → l.pending ≡ []
          → Ends (λ rep l'. AtRest l') (run_full fl simulator sorted fixed rounds c) l
      unfolding run_full stop set_rate_bps
      run_full-Ends rounds c l hb hl number idle = Ends-then _ _ _ refl (
          Ends->>= _ _ _ (batch_probe-Ends rounds _ c.baseline_probes _ idle hb) λ p l i.
            let (base, e) =
              base_rtt_returns fl sorted p.rtts c.baseline_pct (same_number p.rtts)
                (in_range p.rtts c.baseline_pct number) in
            Ends-after _ _ _ (checked-Runs (base_rtt fl sorted p.rtts c.baseline_pct) l base e) (
              Ends-then _ _ _ refl (
                Ends-then _ _ _ refl (
                  Ends-after _ _ _ refl (
                    Ends-then _ _ _ refl (
                      Ends-then _ _ _ refl (
                        Ends->>= _ _ _ (hist_batch-Ends rounds _ c.loaded_probes base _ i hl)
                          λ ll l (i, wl).
                            Ends->>= _ _ _ (hist_batch-Ends rounds _ c.loaded_probes base l i hl)
                              λ classic l (i, wc).
                                let (median, em) =
                                  quantile-Runs classic.histogram (decimal 5 1) l wc in
                                Ends-after _ _ _ em (
                                  Ends-after _ _ _ refl (
                                    Ends->>= _ _ _
                                      (hist_batch-Ends rounds _ c.loaded_probes base l i hl)
                                      λ solo l (i, ws). Ends-after _ _ _ refl (
                                        Ends->>= _ _ _
                                          (hist_batch-Ends rounds _ c.loaded_probes base l i hl)
                                          λ with_ll l (i, ww). Ends-then _ _ _ refl (
                                            let (solo_p99, es) =
                                              quantile-Runs solo.histogram (decimal 99 2) (stop l)
                                                ws in
                                            Ends-after _ _ _ es (
                                              let (with_p99, ew) =
                                                quantile-Runs with_ll.histogram (decimal 99 2)
                                                  (stop l) ww in
                                              Ends-after _ _ _ ew (
                                                let covered =
                                                  both_covered ll.histogram classic.histogram wl
                                                    wc in
                                                let (result, er) =
                                                  evaluate_returns fl fixed _ c.thresholds covered
                                                    covered in
                                                Ends-after _ _ _ (checked-Runs _ (stop l) result er)
                                                  (Ends-return _ _ (i, refl, refl)))))))))))))))

      -- When the sort keeps the number of samples, a product p * (n - 1) with a number p between 0 and 1 is not negative and is
      -- truncated to a number below n, and the baseline percentile is a number, not NaN, a run over the simulated path that has no
      -- echo pending and more rounds for a batch than a batch has probes returns a report: no call fails, nothing panics, and
      -- every drain ends. Afterwards no echo is pending and the load is off.
      pub run_full_returns :
          (rounds : ℕ) (c : Config fl) (l : Loopback)
          → c.baseline_probes < rounds
          → c.loaded_probes < rounds
          → le c.baseline_pct c.baseline_pct ≡ true
          → l.pending ≡ []
          → (rep : Report fl) × (l' : Loopback) × Runs
              (run_full fl simulator sorted fixed rounds c)
              l
              rep
              l'
            × AtRest l'
      run_full_returns rounds c l hb hl number idle =
          let e = run_full-Ends rounds c l hb hl number idle in (e.value, e.after, e.ends, e.has)
