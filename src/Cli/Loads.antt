-- ===== src/Cli/Loads.antt =====
-- The loads of the diagnostic over the simulated path.
use Prim.Native.String.{String}
use qoe_test_harness.Prelude.{
  ℕ, ◌≡◌, refl, sym, Bool, true, false, inl, inr, Option, none, some, [], Result, ltb, Bool-cases,
}
use qoe_test_harness.Prelude.Floats.{Float64}
use qoe_test_harness.Prelude.Calls.{Ends, Ends-after, Ends-then, Ends-return}
use qoe_test_harness.Net.Loopback.{Loopback}
use qoe_test_harness.Net.Loopback.Simulator.{simulator}
use qoe_test_harness.Net.Seams.{Failure}
use qoe_test_harness.Net.LoadFlow.{LoadFlow, opened, bps_of}
use qoe_test_harness.Batch.{attempt}
use qoe_test_harness.Cli.Diagnostic.{start_load, stop_load}
use qoe_test_harness.Net.LoadFlow.Steady.{Steady, DialWorks, attempt-Runs, fatal-Runs, opened-Runs}

abbrev pub is_some : {A : Type 0} → Option A → Bool
is_some none = false
is_some (some a) = true

module _ (fl : Float64) where
  -- The flow of a load that is asked for.
  abbrev pub SteadyIf : {Marked : Type 0} → Option (LoadFlow Loopback Marked) → Type 0
  SteadyIf none = Unit {0}
  SteadyIf (some flow) = Steady flow

  abbrev pub Started : {Marked : Type 0} → ℕ → Option (LoadFlow Loopback Marked) → Loopback → Type 0
  Started mbps o l = (l.pending ≡ []) × (is_some o ≡ ltb 0 mbps) × SteadyIf o

  pub start_load-Ends :
      {Marked : Type 0} (label start : String)
      (dial : Loopback → Result Failure (LoadFlow Loopback Marked) × Loopback) (mbps : ℕ)
      (l : Loopback) {Marks : LoadFlow Loopback Marked → Type 0}
      → DialWorks Marks dial
      → l.pending ≡ []
      → Ends (Started mbps) (start_load fl simulator label start dial mbps) l
  unfolding start_load
  start_load-Ends label start dial mbps l works idle = elim (Bool-cases (ltb 0 mbps)) [
    | inl more ↦
        let (flow, l', e, idle', steady, _) = works l idle in
        let (l'', e', idle'') = steady.set_rate_works (bps_of mbps) l' idle' in
        rw more (
          Ends-after _ _ _
            (fatal-Runs fl label (opened dial) l flow l' (opened-Runs fl dial l flow l' e))
            (Ends-then _ _ _
              (fatal-Runs fl start (attempt fl simulator (flow.set_rate_bps (bps_of mbps))) l' tt
                l'' (attempt-Runs fl (flow.set_rate_bps (bps_of mbps)) l' l'' e'))
              (Ends-return (some flow) l'' (idle'', sym more, steady))))
    | inr zero_rate ↦ rw zero_rate (Ends-return none l (idle, sym zero_rate, tt))
  ]

  pub stop_load-Ends :
      {Marked : Type 0} (o : Option (LoadFlow Loopback Marked)) (l : Loopback)
      → SteadyIf o
      → l.pending ≡ []
      → Ends (λ r l'. (l'.pending ≡ []) × (is_some r ≡ is_some o)) (stop_load fl simulator o) l
  unfolding stop_load
  stop_load-Ends none l steady idle = Ends-return none l (idle, refl)
  stop_load-Ends (some flow) l steady idle = Ends-after _ _ _ refl (
      Ends-then _ _ _ refl
        (Ends-return (some (flow.achieved_bps l)) (flow.stop l) (steady.stop_works l idle, refl)))
