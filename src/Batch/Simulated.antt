-- ===== src/Batch/Simulated.antt =====
-- Batches of probes over the simulated path of core/net/loopback.go.
use qoe_test_harness.Prelude.{
  count, ℕ, zero, suc, ◌+◌, ◌*◌, ◌/◌, ◌%◌, ◌<◌, ◌≤◌, ◌≡◌, inl, inr, refl, sym, ap, ap₂, subst, ◌∙◌,
  Bool, true, false, not, ◌&&◌, List, [], ◌∷◌, ◌++◌, append_assoc, append-nil, ok, ◌==◌,
  if◌then◌else◌, arith, Bool-cases,
}
use qoe_test_harness.Prelude.Floats.{Float64}
use qoe_test_harness.Prelude.Int.{pos}
use qoe_test_harness.Net.Conn.{not_ect, Echo}
use qoe_test_harness.Net.Loopback.{Loopback, LoopbackConfig, is_ll, send_probe}
use qoe_test_harness.Net.Loopback.Delivery.{recv_echo_cases}
use qoe_test_harness.Net.Loopback.Simulator.{simulator}
use qoe_test_harness.Prelude.Calls.{Runs, Runs-bind, Runs-then, ◌>>=◌, ◌>>◌}
use qoe_test_harness.Batch.{
  marking_survived, Batch, empty_batch, rtt_ms, rate_of, count_echo, Probed, summary, send_all,
  drain, batch_probe,
}

-- The echo of a probe with this marking and number that is sent at `clock`.
abbrev pub reply : LoopbackConfig → Bool → ℕ → ℕ → ℕ → Echo
reply cfg loaded clock marking seq =
    let low = not (marking % 2 == 0) in
    let queue =
      if loaded then (if low then cfg.ll_queue_delay else cfg.classic_queue_delay) else 0 in
    let delay = cfg.base_rtt + queue + (seq % 5) * cfg.jitter_step_ms * 1_000_000 in
    record {
      seq = seq;
      sent_at = pos clock;
      recv_at = clock + delay;
      server_recv_at = pos (clock + delay / 2);
      tos_observed = if cfg.bleach then not_ect else marking;
      ce_seen = loaded && cfg.ce_when_loaded && low;
      down_tos_observed = 0;
      down_ce = false;
    }

-- The path drops each probe whose number is a multiple of the drop period.
abbrev pub dropped : LoopbackConfig → ℕ → Bool
dropped cfg seq = not (cfg.drop_every == 0) && ((seq % cfg.drop_every) == 0)

-- The echoes of `n` probes with the numbers from `seq` on.
abbrev pub arrivals : LoopbackConfig → Bool → ℕ → ℕ → ℕ → ℕ → List Echo
arrivals cfg loaded clock marking seq zero = []
arrivals cfg loaded clock marking seq (suc n) =
    let rest = arrivals cfg loaded clock marking (seq + 1) n in
    if dropped cfg seq then rest else reply cfg loaded clock marking seq ∷ rest

module _ (fl : Float64) where
  open fl use {F}

  pub send_probe-eq :
      (l : Loopback) (marking seq : ℕ)
      → send_probe l (record { seq = seq; sent_at = l.clock; marking = marking }) ≡ (
          if dropped l.cfg seq
          then l
          else record l { pending = l.pending ++ (reply l.cfg l.loaded l.clock marking seq ∷ []) })
  unfolding send_probe is_ll
  send_probe-eq l marking seq = refl

  send_all-Runs :
      (marking seq n : ℕ) (l : Loopback)
      → Runs
          (send_all fl simulator marking seq n)
          l
          tt
          (record l { pending = l.pending ++ arrivals l.cfg l.loaded l.clock marking seq n })
  unfolding send_all ◌>>=◌ ◌>>◌
  send_all-Runs marking seq zero l =
      ap (λ xs. (ok tt, record l { pending = xs })) (sym (append-nil l.pending))
  send_all-Runs marking seq (suc n) l =
      rw (send_probe-eq l marking seq) (elim (Bool-cases (dropped l.cfg seq)) [
        | inl lost ↦ rw lost (send_all-Runs marking (seq + 1) n l)
        | inr kept ↦ rw kept (
            send_all-Runs marking (seq + 1) n
              (record l { pending = l.pending ++ (reply l.cfg l.loaded l.clock marking seq ∷ []) })
            ∙ ap (λ xs. (ok tt, record l { pending = xs })) (append_assoc l.pending _ _))
      ])

  -- The batch once the echoes `es` are received.
  abbrev tally : ℕ → Batch fl → List Echo → Batch fl
  tally marking b [] = b
  tally marking b (e ∷ es) = tally marking (count_echo fl marking b e) es

  -- Each round takes an echo that was pending, so that there are as many rounds as such echoes, and one.
  drain-Runs :
      (n marking : ℕ) (b : Batch fl) (l : Loopback)
      → count (λ e. true) l.pending ≡ n
      → (rounds : ℕ) → n < rounds
      → (es : List Echo) × (l' : Loopback) × Runs
          (drain fl simulator rounds marking b)
          l
          (tally marking b es)
          l'
        × (l'.pending ≡ [])
        × ((test : Echo → Bool) → count test es ≡ count test l.pending)
  unfolding drain
  drain-Runs n marking b l size zero h = absurd (omega (arith, h))
  drain-Runs zero marking b l size (suc rounds) h = elim (recv_echo_cases l) [
    | inl (none_pending, got) ↦ (
      [],
      l,
      rw (got, drain) (rw (simulator, got) refl),
      none_pending,
      λ test. rw none_pending refl,
    )
    | inr (e, l', got, _, _, counts) ↦ absurd (omega (arith, counts (λ e. true), size))
  ]
  drain-Runs (suc n) marking b l size (suc rounds) h = elim (recv_echo_cases l) [
    | inl (none_pending, got) ↦ absurd (omega (arith, size, ap (count (λ e. true)) none_pending))
    | inr (e, l', got, _, _, counts) ↦
        let (es, l'', run, emptied, same) =
          drain-Runs n marking (count_echo fl marking b e) l'
            (omega (arith, counts (λ e. true), size)) rounds (omega arith) in
        (
          e ∷ es,
          l'',
          rw (got, drain) (rw (simulator, got) run),
          emptied,
          λ test. rw (same test) (counts test),
        )
  ]

  pub arrivals-le :
      (cfg : LoopbackConfig) (loaded : Bool) (clock marking seq n : ℕ)
      → count (λ e. true) (arrivals cfg loaded clock marking seq n) ≤ n
  arrivals-le cfg loaded clock marking seq zero = omega arith
  arrivals-le cfg loaded clock marking seq (suc n) =
      ground (arith, arrivals-le cfg loaded clock marking (seq + 1) n)

  count-append :
      {A : Type 0} (test : A → Bool) (xs ys : List A)
      → count test (xs ++ ys) ≡ count test xs + count test ys
  count-append test [] ys = omega arith
  count-append test (x ∷ xs) ys = ground (arith, count-append test xs ys)

  -- What a batch has counted after the echoes `es`.
  record Tallied (marking : ℕ) (b : Batch fl) (es : List Echo) : Type 0 where
    all_counted : (tally marking b es).total ≡ b.total + count (λ e. true) es
    survivors :
        (tally marking b es).survived
        ≡ b.survived + count (λ e. marking_survived marking e.tos_observed) es
    marked : (tally marking b es).ce_count ≡ b.ce_count + count (λ e. e.ce_seen) es
    timed :
        (test : F → Bool)
        → count test (tally marking b es).rtts_ms
          ≡ count test b.rtts_ms + count (λ e. test (rtt_ms fl e)) es

  tally-Tallied : (marking : ℕ) (b : Batch fl) (es : List Echo) → Tallied marking b es
  unfolding count_echo
  tally-Tallied marking b [] = record {
    all_counted = omega arith;
    survivors = omega arith;
    marked = omega arith;
    timed = λ test. omega arith;
  }
  tally-Tallied marking b (e ∷ es) =
      let t = tally-Tallied marking (count_echo fl marking b e) es in
      record {
        all_counted = ground (arith, t.all_counted);
        survivors = ground (arith, t.survivors);
        marked = ground (arith, t.marked);
        timed =
            λ test. ground (arith, t.timed test, count-append test b.rtts_ms (rtt_ms fl e ∷ []));
      }

  -- What a batch returns when the echoes `sent` come back.
  pub record Summarised (marking : ℕ) (sent : List Echo) (p : Probed fl) : Type 0 where
    pub timed : (test : F → Bool) → count test p.rtts ≡ count (λ e. test (rtt_ms fl e)) sent
    pub is_survival :
        p.survival
        ≡ rate_of fl
            (count (λ e. marking_survived marking e.tos_observed) sent)
            (count (λ e. true) sent)
    pub is_ce : p.ce ≡ rate_of fl (count (λ e. e.ce_seen) sent) (count (λ e. true) sent)

  summary-Summarised :
      (marking : ℕ) (es sent : List Echo)
      → ((test : Echo → Bool) → count test es ≡ count test sent)
      → Summarised marking sent (summary fl (tally marking (empty_batch fl) es))
  summary-Summarised marking es sent same =
      let t = tally-Tallied marking (empty_batch fl) es in
      let all : (tally marking (empty_batch fl) es).total ≡ count (λ e. true) sent =
        omega (arith, t.all_counted, same (λ e. true)) in
      record {
        timed = λ test. omega (arith, t.timed test, same (λ e. test (rtt_ms fl e)));
        is_survival =
            ap₂ (rate_of fl)
              (omega (arith, t.survivors, same (λ e. marking_survived marking e.tos_observed))) all;
        is_ce = ap₂ (rate_of fl) (omega (arith, t.marked, same (λ e. e.ce_seen))) all;
      }

  -- On a path with no echo pending, a batch with more rounds than probes returns and leaves none pending. It has timed each probe
  -- that the path did not drop once, with the delay that the path's configuration and load give it, and returns the share of
  -- those whose mark survived and the share of those marked CE.
  pub batch_probe-Summarised :
      (rounds marking n : ℕ) (l : Loopback)
      → l.pending ≡ []
      → n < rounds
      → (p : Probed fl) × (l' : Loopback) × Runs (batch_probe fl simulator rounds marking n) l p l'
        × (l'.pending ≡ [])
        × Summarised marking (arrivals l.cfg l.loaded l.clock marking 1 n) p
  unfolding batch_probe
  batch_probe-Summarised rounds marking n l idle h =
      let sent = arrivals l.cfg l.loaded l.clock marking 1 n in
      let (es, l', run, emptied, same) =
        drain-Runs (count (λ e. true) sent) marking (empty_batch fl) (record l { pending = sent })
          refl rounds (omega (arith, h, arrivals-le l.cfg l.loaded l.clock marking 1 n)) in
      (
        summary fl (tally marking (empty_batch fl) es),
        l',
        Runs-then (send_all fl simulator marking 1 n) _ l tt (record l { pending = sent })
            (subst
              (λ xs.
                Runs (send_all fl simulator marking 1 n) l tt (record l { pending = xs ++ sent }))
              idle (send_all-Runs marking 1 n l))
            (Runs-bind (drain fl simulator rounds marking (empty_batch fl)) _
              (record l { pending = sent }) (tally marking (empty_batch fl) es) l' run refl),
        emptied,
        summary-Summarised marking es sent same,
      )
