-- ===== src/Cli/Returns.antt =====
-- The diagnostic over the simulated path returns.
use qoe_test_harness.Prelude.{
  count, ℕ, ◌-◌, ◌<◌, ◌≤◌, ◌≡◌, refl, ◌∙◌, true, false, Option, none, some, List, [], ◌∷◌, length,
  ltb, arith,
}
use qoe_test_harness.Prelude.Floats.{Float64, zero_f, one_f, Ordered, Rounded}
use qoe_test_harness.Prelude.Calls.{Runs, Ends, Ends->>=, Ends-after, Ends-then, Ends-return}
use qoe_test_harness.Compute.Histogram.{new_default_histogram}
use qoe_test_harness.Compute.Stats.{base_rtt, base_rtt_returns}
use qoe_test_harness.Net.Loopback.{Loopback}
use qoe_test_harness.Net.Loopback.Simulator.{simulator}
use qoe_test_harness.Net.LoadFlow.{Sockets, UpFlow, DownFlow}
use qoe_test_harness.Batch.{Probed, attempt, batch_probe, observe_deltas}
use qoe_test_harness.Batch.Simulated.{arrivals-le, batch_probe-Summarised}
use qoe_test_harness.Engine.Ending.{checked-Runs, observed, quantile-Runs}
use qoe_test_harness.Cli.Diagnostic.{Flags, Diagnosis, settle, start_loads, class_of, diagnose}
use qoe_test_harness.Net.LoadFlow.Steady.{Reliable, attempt-Runs, fatal-Runs, fatal-Ends}
use qoe_test_harness.Cli.Loads.{is_some, Started, start_load-Ends, stop_load-Ends}

module _ (fl : Float64) where
  open fl use {F, le, mul, of_ℕ, decimal, truncate}

  -- A load's rate is shown if the load was asked for, and no class has more samples than probes.
  pub record Shows (flags : Flags) (d : Diagnosis fl) : Type 0 where
    pub up_shown : is_some d.up_achieved ≡ ltb 0 flags.load_mbps
    pub down_shown : is_some d.down_achieved ≡ ltb 0 flags.down_mbps
    pub ll_samples : d.ll.n ≤ flags.probes
    pub classic_samples : d.classic.n ≤ flags.probes

  -- A batch over the path has no more samples than probes.
  batch-Ends :
      (rounds marking n : ℕ) (l : Loopback)
      → l.pending ≡ []
      → n < rounds
      → Ends
          (λ p l'. (l'.pending ≡ []) × (length p.rtts ≤ n))
          (batch_probe fl simulator rounds marking n)
          l
  batch-Ends rounds marking n l idle h =
      let (p, l', run, emptied, summarised) = batch_probe-Summarised fl rounds marking n l idle h in
      record {
        value = p;
        after = l';
        ends = run;
        has = (
          emptied,
          omega (
            arith,
            summarised.timed (λ x. true),
            count-all p.rtts,
            arrivals-le fl l.cfg l.loaded l.clock marking 1 n,
          ),
        );
      }
    where
      count-all : {A : Type 0} (xs : List A) → count (λ x. true) xs ≡ length xs
      count-all [] = refl
      count-all (x ∷ xs) = ground (arith, count-all xs)

  module _ (ordered : Ordered fl) (rounded : Rounded fl) where
    class_of-Ends :
        (base : F) (p : Probed fl) (l : Loopback)
        → Ends (λ c l'. (l' ≡ l) × (c.n ≡ length p.rtts)) (class_of fl simulator base p) l
    unfolding class_of
    class_of-Ends base p l =
        let (h, e, w) = observed fl ordered rounded p.rtts base in
        let (p50, e50) = quantile-Runs fl ordered rounded h (decimal 5 1) l w in
        let (p99, e99) = quantile-Runs fl ordered rounded h (decimal 99 2) l w in
        Ends-after _ _ _
          (checked-Runs fl (observe_deltas fl (new_default_histogram fl) base p.rtts) l h e)
          (Ends-after _ _ _ e50 (Ends-after _ _ _ e99 (Ends-return _ l (refl, refl))))

    module _ (sorted : List F → List F)
        (same_number : (xs : List F) → length (sorted xs) ≡ length xs)
        (in_range : (xs : List F) (m k : ℕ)
          → le (decimal m k) (zero_f fl) ≡ false
          → le (one_f fl) (decimal m k) ≡ false
          → 0 < length xs
          → (le (zero_f fl) (mul (decimal m k) (of_ℕ (length xs - 1))) ≡ true)
            × (truncate (mul (decimal m k) (of_ℕ (length xs - 1))) < length xs))
        (sockets : Sockets Loopback) (reliable : Reliable sockets) where
      -- Both loads, and the wait after them.
      start_loads-Ends :
          (flags : Flags) (l : Loopback)
          → l.pending ≡ []
          → Ends
              (λ (load, down) l'.
                Started fl flags.load_mbps load l' × Started fl flags.down_mbps down l')
              (start_loads fl simulator sockets flags)
              l
      unfolding start_loads
      start_loads-Ends flags l idle =
          Ends->>= _ _ _ (start_load-Ends fl _ _ _ flags.load_mbps l reliable.dial_load_works idle)
            λ load l' (idle', asked, steady).
              Ends->>= _ _ _
                (start_load-Ends fl _ _ _ flags.down_mbps l' (reliable.dial_down_load_works 2)
                  idle')
                λ down l'' (idle'', asked', steady').
                  let still = settled load down l'' idle'' in
                  Ends-then _ _ _ refl
                    (Ends-return (load, down) _ ((still, asked, steady), (still, asked', steady')))
        where
          settled :
              (load : Option (UpFlow Loopback)) (down : Option (DownFlow Loopback)) (l : Loopback)
              → l.pending ≡ []
              → (settle fl simulator load down l).pending ≡ []
          settled none none l i = i
          settled none (some d) l i = i
          settled (some u) down l i = i

      diagnose-Ends :
          (rounds : ℕ) (flags : Flags) (l : Loopback)
          → 100 < rounds
          → flags.probes < rounds
          → l.pending ≡ []
          → Ends (λ d l'. Shows flags d) (diagnose fl simulator sockets sorted rounds flags) l
      unfolding diagnose
      diagnose-Ends rounds flags l hb hp idle =
          let (l1, dialled, i1) = reliable.dial_works l idle in
          let i2 = reliable.handshake_works 1 l1 i1 in
          Ends-then _ _ _
            (fatal-Runs fl "dial" (attempt fl simulator sockets.dial) l tt l1
              (attempt-Runs fl sockets.dial l l1 dialled))
            (Ends-then _ _ _ refl (
              Ends->>= _ _ _ (fatal-Ends fl _ _ _ (batch-Ends rounds _ 100 _ i2 hb)) λ p l (i, _).
                let (base, e) =
                  base_rtt_returns fl sorted p.rtts (decimal 5 2) (same_number p.rtts)
                    (in_range p.rtts 5 2) in
                Ends-after _ _ _
                  (checked-Runs fl (base_rtt fl sorted p.rtts (decimal 5 2)) l base e)
                  (Ends->>= _ _ _ (start_loads-Ends flags l i)
                    λ (load, down) l ((i, asked, steady), (_, asked', steady')).
                      Ends->>= _ _ _ (fatal-Ends fl _ _ _ (batch-Ends rounds _ flags.probes l i hp))
                        λ ll l (i, ll_few).
                          Ends->>= _ _ _
                            (fatal-Ends fl _ _ _ (batch-Ends rounds _ flags.probes l i hp))
                            λ classic l (i, classic_few).
                              Ends->>= _ _ _ (stop_load-Ends fl load l steady i) λ up l (i, same).
                                Ends->>= _ _ _ (stop_load-Ends fl down l steady' i)
                                  λ dn l (i, same').
                                    Ends->>= _ _ _ (class_of-Ends base ll l) λ c l (_, n).
                                      Ends->>= _ _ _ (class_of-Ends base classic l) λ c' l (_, n').
                                        Ends-then _ _ _ refl (
                                          Ends-then _ _ _ refl (
                                            Ends-then _ _ _ refl (
                                              Ends-return _ _ (record {
                                                up_shown = same ∙ asked;
                                                down_shown = same' ∙ asked';
                                                ll_samples = omega (arith, n, ll_few);
                                                classic_samples = omega (arith, n', classic_few);
                                              })))))))

      -- When the sort keeps the number of samples, a product p * (n - 1) with a constant p between 0 and 1 is not negative and is
      -- truncated to a number below n,
      -- the sockets open and the loads start, the diagnostic over a simulated path that has no echo pending, with more rounds
      -- for a batch than 100 and than the flag's probes, returns: no call fails, nothing panics and every drain ends, also when
      -- the handshake fails. It shows the rate of a load exactly if the flag for that load is above 0, and neither class has
      -- more samples than there were probes.
      pub diagnose_returns :
          (rounds : ℕ) (flags : Flags) (l : Loopback)
          → 100 < rounds
          → flags.probes < rounds
          → l.pending ≡ []
          → (d : Diagnosis fl) × (l' : Loopback) × Runs
              (diagnose fl simulator sockets sorted rounds flags)
              l
              d
              l'
            × Shows flags d
      diagnose_returns rounds flags l hb hp idle =
          let e = diagnose-Ends rounds flags l hb hp idle in (e.value, e.after, e.ends, e.has)
