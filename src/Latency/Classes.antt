-- ===== src/Latency/Classes.antt =====
-- The two classes of probes over the simulated path of core/net/loopback.go.
use Prim.Native.String.{String}
use qoe_test_harness.Prelude.{
  count, ℕ, zero, suc, ◌+◌, ◌-◌, ◌*◌, ◌<◌, ◌≤◌, ◌≡◌, inl, inr, refl, sym, ap, subst, ◌∙◌, Bool,
  true, false, List, [], ◌∷◌, ◌++◌, append_assoc, append-nil, ok, length, if◌then◌else◌, arith,
  Bool-cases,
}
use qoe_test_harness.Prelude.Floats.{Float64, zero_f, one_f}
use qoe_test_harness.Prelude.Calls.{M, Runs, Runs-bind, Runs-then, ◌>>=◌, ◌>>◌}
use qoe_test_harness.Compute.Stats.{base_rtt, base_rtt_returns}
use qoe_test_harness.Net.Conn.{Echo}
use qoe_test_harness.Net.Loopback.{Loopback, LoopbackConfig}
use qoe_test_harness.Net.Loopback.Delivery.{recv_echo_cases}
use qoe_test_harness.Net.Loopback.Simulator.{simulator}
use qoe_test_harness.Batch.{RunError, checked}
use qoe_test_harness.Batch.Simulated.{reply, dropped, send_probe-eq}
use qoe_test_harness.Engine.Ending.{checked-Runs}
use qoe_test_harness.Latency.{
  mark_of, Rtt, Scenario, Gathered, nothing, gather, send_classes, drain_classes, quantiles, probe,
}
use qoe_test_harness.Latency.Gathering.{gathered, Separated, scenario_of, scenario_of-Separated}

-- The echoes of `n` probes of alternating class with the numbers from `seq` on.
abbrev pub alternating : LoopbackConfig → Bool → ℕ → ℕ → ℕ → List Echo
alternating cfg loaded clock seq zero = []
alternating cfg loaded clock seq (suc n) =
    let rest = alternating cfg loaded clock (seq + 1) n in
    if dropped cfg seq then rest else reply cfg loaded clock (mark_of seq) seq ∷ rest

module _ (fl : Float64) where
  open fl use {F, le, mul, of_ℕ, decimal, truncate}

  send_classes-Runs :
      (seq n : ℕ) (l : Loopback)
      → Runs
          (send_classes fl simulator seq n)
          l
          tt
          (record l { pending = l.pending ++ alternating l.cfg l.loaded l.clock seq n })
  unfolding send_classes ◌>>=◌ ◌>>◌
  send_classes-Runs seq zero l =
      ap (λ xs. (ok tt, record l { pending = xs })) (sym (append-nil l.pending))
  send_classes-Runs seq (suc n) l =
      rw (send_probe-eq fl l (mark_of seq) seq) (elim (Bool-cases (dropped l.cfg seq)) [
        | inl lost ↦ rw lost (send_classes-Runs (seq + 1) n l)
        | inr kept ↦ rw kept (
            send_classes-Runs (seq + 1) n (record l {
              pending = l.pending ++ (reply l.cfg l.loaded l.clock (mark_of seq) seq ∷ []);
            })
            ∙ ap (λ xs. (ok tt, record l { pending = xs })) (append_assoc l.pending _ _))
      ])

  -- Each round takes an echo that was pending.
  drain_classes-Runs :
      (n : ℕ) (g : Gathered fl) (l : Loopback)
      → count (λ e. true) l.pending ≡ n
      → (rounds : ℕ) → n < rounds
      → (es : List Echo) × (l' : Loopback) × Runs
          (drain_classes fl simulator rounds g)
          l
          (gathered fl g es)
          l'
        × (l'.pending ≡ [])
        × ((test : Echo → Bool) → count test es ≡ count test l.pending)
  unfolding drain_classes
  drain_classes-Runs n g l size zero h = absurd (omega (arith, h))
  drain_classes-Runs zero g l size (suc rounds) h = elim (recv_echo_cases l) [
    | inl (none_pending, got) ↦ (
      [],
      l,
      rw (got, drain_classes) (rw (simulator, got) refl),
      none_pending,
      λ test. rw none_pending refl,
    )
    | inr (e, l', got, _, _, counts) ↦ absurd (omega (arith, counts (λ e. true), size))
  ]
  drain_classes-Runs (suc n) g l size (suc rounds) h = elim (recv_echo_cases l) [
    | inl (none_pending, got) ↦ absurd (omega (arith, size, ap (count (λ e. true)) none_pending))
    | inr (e, l', got, _, _, counts) ↦
        let (es, l'', run, emptied, same) =
          drain_classes-Runs n (gather fl g e) l' (omega (arith, counts (λ e. true), size)) rounds
            (omega arith) in
        (
          e ∷ es,
          l'',
          rw (got, drain_classes) (rw (simulator, got) run),
          emptied,
          λ test. rw (same test) (counts test),
        )
  ]

  alternating-le :
      (cfg : LoopbackConfig) (loaded : Bool) (clock seq n : ℕ)
      → count (λ e. true) (alternating cfg loaded clock seq n) ≤ n
  alternating-le cfg loaded clock seq zero = omega arith
  alternating-le cfg loaded clock seq (suc n) =
      ground (arith, alternating-le cfg loaded clock (seq + 1) n)

  module _ (sorted : List F → List F) (same_number : (xs : List F) → length (sorted xs) ≡ length xs)
      (in_range : (xs : List F) (m k : ℕ)
        → le (decimal m k) (zero_f fl) ≡ false
        → le (one_f fl) (decimal m k) ≡ false
        → 0 < length xs
        → (le (zero_f fl) (mul (decimal m k) (of_ℕ (length xs - 1))) ≡ true)
          × (truncate (mul (decimal m k) (of_ℕ (length xs - 1))) < length xs)) where
    rank : List F → F → M RunError Loopback F
    rank xs p = checked fl simulator (base_rtt fl sorted xs p)

    rank-Runs :
        (xs : List F) (m k : ℕ) (l : Loopback) → (q : F) × Runs (rank xs (decimal m k)) l q l
    unfolding rank
    rank-Runs xs m k l =
        let (q, e) =
          base_rtt_returns fl sorted xs (decimal m k) (same_number xs) (in_range xs m k) in
        (q, checked-Runs fl (base_rtt fl sorted xs (decimal m k)) l q e)

    quantiles-Runs :
        (xs : List F) (l : Loopback) → (q : Rtt fl) × Runs (quantiles fl simulator sorted xs) l q l
    unfolding quantiles rank
    quantiles-Runs xs l =
        let (p50, r50) = rank-Runs xs 5 1 l in
        let (p90, r90) = rank-Runs xs 9 1 l in
        let (p99, r99) = rank-Runs xs 99 2 l in
        let (max, r100) = rank-Runs xs 1 0 l in
        (
          record { p50 = p50; p90 = p90; p99 = p99; max = max },
          Runs-bind (rank xs (decimal 5 1)) _ l p50 l r50 (
              Runs-bind (rank xs (decimal 9 1)) _ l p90 l r90 (
                Runs-bind (rank xs (decimal 99 2)) _ l p99 l r99
                  (Runs-bind (rank xs (one_f fl)) _ l max l r100 refl))),
        )

    -- When the sort keeps the number of samples and a product p * (n - 1) with a constant p between 0 and 1 is not negative and is
    -- truncated to a number below n, a probe over the simulated path with no echo pending and more rounds than probes returns. It
    -- has as many low-latency and as many classic samples as the path brought back echoes of odd and of even number, and its
    -- rates are the shares of the low-latency echoes on which the mark was seen.
    pub probe-Separated :
        (rounds : ℕ) (name : String) (n : ℕ) (l : Loopback)
        → l.pending ≡ []
        → n * 2 < rounds
        → (s : Scenario fl) × (l' : Loopback) × Runs
            (probe fl simulator sorted rounds name n)
            l
            s
            l'
          × (l'.pending ≡ [])
          × Separated fl (alternating l.cfg l.loaded l.clock 1 (n * 2)) s
    unfolding probe
    probe-Separated rounds name n l idle h =
        let sent = alternating l.cfg l.loaded l.clock 1 (n * 2) in
        let (es, l', run, emptied, same) =
          drain_classes-Runs (count (λ e. true) sent) (nothing fl) (record l { pending = sent })
            refl rounds (omega (arith, h, alternating-le l.cfg l.loaded l.clock 1 (n * 2))) in
        let g = gathered fl (nothing fl) es in
        let (classic, classic_run) = quantiles-Runs g.cl l' in
        let (ll, ll_run) = quantiles-Runs g.ll l' in
        (
          scenario_of fl name classic ll g,
          l',
          Runs-then (send_classes fl simulator 1 (n * 2)) _ l tt (record l { pending = sent })
              (subst
                (λ xs.
                  Runs (send_classes fl simulator 1 (n * 2)) l tt
                    (record l { pending = xs ++ sent }))
                idle (send_classes-Runs 1 (n * 2) l))
              (Runs-bind (drain_classes fl simulator rounds (nothing fl)) _
                (record l { pending = sent }) g l' run
                (Runs-bind (quantiles fl simulator sorted g.cl) _ l' classic l' classic_run
                  (Runs-bind (quantiles fl simulator sorted g.ll) _ l' ll l' ll_run refl))),
          emptied,
          scenario_of-Separated fl sent es name classic ll same,
        )
