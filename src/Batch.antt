-- ===== src/Batch.antt =====
-- core/engine/engine.go: a batch of probes, over any seams. `sorted` is sort.Float64s and
-- `fixed n x` the text of fmt's verb %.nf. An int of the configuration is not negative.
pub mod Simulated
use Prim.Native.String.{String}
use qoe_test_harness.Prelude.{
  ℕ, zero, suc, ◌+◌, ◌*◌, ◌/◌, ◌%◌, ◌^◌, Bool, true, false, not, ◌&&◌, Option, none, some, List, [],
  ◌∷◌, ◌++◌, map, Result, ok, err, ltb, ◌==◌, if◌then◌else◌,
}
use qoe_test_harness.Prelude.Int.{elapsed}
use qoe_test_harness.Prelude.Floats.{Float64, zero_f}
use qoe_test_harness.Compute.Histogram.{Fault, Histogram, new_default_histogram, observe, quantile}
use qoe_test_harness.Compute.Stats.{base_rtt, working_delta}
use qoe_test_harness.Compute.Verdict.{
  RunResult, Thresholds, default_thresholds, DirectionInputs, Inputs, evaluate,
}
use qoe_test_harness.Net.Conn.{Probe, Echo, not_ect, ll_mark}
use qoe_test_harness.Net.Seams.{Failure, Received, echo, no_more, broken, Seams}
use qoe_test_harness.Prelude.Calls.{M, ◌>>=◌, ◌>>◌, return}

-- A returned error; a panic; or that the drain loop needed more rounds than it was given.
pub data RunError : Type 0 where
  failed : Failure → RunError
  panicked : Fault → RunError
  out_of_rounds : RunError

-- `m&ECT1 != 0`.
abbrev pub has_ect1 : ℕ → Bool
has_ect1 m = not (m % 2 == 0)

unfoldable pub marking_survived : ℕ → ℕ → Bool
marking_survived intended observed = if not (has_ect1 intended) then true else has_ect1 observed

module _ (fl : Float64) where
  open fl use {F, div, of_ℕ, of_ℤ, decimal}

  -- What the drain loop of BatchProbe has gathered.
  pub record Batch : Type 0 where
    pub rtts_ms : List F
    pub survived : ℕ
    pub total : ℕ
    pub ce_count : ℕ

  abbrev pub empty_batch : Batch
  empty_batch = record { rtts_ms = []; survived = 0; total = 0; ce_count = 0 }

  abbrev pub rtt_ms : Echo → F
  rtt_ms e = div (of_ℤ (elapsed e.recv_at e.sent_at)) (decimal 1_000_000 0)

  unfoldable pub count_echo : ℕ → Batch → Echo → Batch
  unfolding marking_survived
  count_echo marking b e = record {
    rtts_ms = b.rtts_ms ++ (rtt_ms e ∷ []);
    survived = if marking_survived marking e.tos_observed then b.survived + 1 else b.survived;
    total = b.total + 1;
    ce_count = if e.ce_seen then b.ce_count + 1 else b.ce_count;
  }

  abbrev pub rate_of : ℕ → ℕ → F
  rate_of n total = if ltb 0 total then div (of_ℕ n) (of_ℕ total) else zero_f fl

  -- The values that BatchProbe and histBatch return beside the error.
  pub record Probed : Type 0 where
    pub rtts : List F
    pub survival : F
    pub ce : F

  abbrev pub summary : Batch → Probed
  summary b = record {
    rtts = b.rtts_ms;
    survival = rate_of b.survived b.total;
    ce = rate_of b.ce_count b.total;
  }

  pub record Measured : Type 0 where
    pub histogram : Histogram fl
    pub survival : F
    pub ce : F

  -- The loop of histBatch over the samples.
  unfoldable pub observe_deltas : Histogram fl → F → List F → Result Fault (Histogram fl)
  observe_deltas h base [] = ok h
  observe_deltas h base (s ∷ samples) = elim (observe fl h (working_delta fl s base)) [
    | ok h' ↦ observe_deltas h' base samples
    | err f ↦ err f
  ]

  module _ (seams : Seams) where
    open seams use {World, now, sleep, send_probe, recv_echo, set_rate_bps, achieved_bps, stop}

    -- A call that returns an error.
    abbrev pub attempt : (World → Option Failure × World) → M RunError World (Unit {0})
    attempt call w = let (e, w') = call w in (elim e [ none ↦ ok tt | some f ↦ err (failed f) ], w')

    -- A computation that may panic.
    abbrev pub checked : {A : Type 0} → Result Fault A → M RunError World A
    checked r w = elim r [ ok a ↦ (ok a, w) | err f ↦ (err (panicked f), w) ]

    abbrev pub act : (World → World) → M RunError World (Unit {0})
    act f w = (ok tt, f w)

    abbrev pub ask : {A : Type 0} → (World → A) → M RunError World A
    ask f w = (ok (f w), w)

    -- The sends of BatchProbe, `n` of them, the next with number `seq`.
    unfoldable pub send_all : ℕ → ℕ → ℕ → M RunError World (Unit {0})
    send_all marking seq zero = return tt
    send_all marking seq (suc n) = do
      t ← ask now
      attempt (send_probe (record { seq = seq; sent_at = t; marking = marking }))
      send_all marking (seq + 1) n

    -- The drain loop of BatchProbe, with as many rounds as `rounds`.
    unfoldable pub drain : ℕ → ℕ → Batch → M RunError World Batch
    drain zero marking b w = (err out_of_rounds, w)
    drain (suc rounds) marking b w =
        let (got, w') = recv_echo w in
        elim got [
          | echo e ↦ drain rounds marking (count_echo marking b e) w'
          | no_more ↦ (ok b, w')
          | broken f ↦ (err (failed f), w')
        ]

    unfoldable pub batch_probe : ℕ → ℕ → ℕ → M RunError World Probed
    batch_probe rounds marking n = do
      send_all marking 1 n
      b ← drain rounds marking empty_batch
      return (summary b)

    unfoldable pub hist_batch : ℕ → ℕ → ℕ → F → M RunError World Measured
    hist_batch rounds marking n base = do
      p ← batch_probe rounds marking n
      h ← checked (observe_deltas (new_default_histogram fl) base p.rtts)
      return (record { histogram = h; survival = p.survival; ce = p.ce })
