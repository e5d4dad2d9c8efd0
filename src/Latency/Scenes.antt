-- ===== src/Latency/Scenes.antt =====
-- A scenario of qoe-latency over the simulated path.
use Prim.Native.String.{String, ◌++◌ as ◌#◌}
use qoe_test_harness.Prelude.{true, ℕ, ◌-◌, ◌*◌, ◌<◌, ◌≡◌, refl, false, List, [], length}
use qoe_test_harness.Prelude.Floats.{Float64, zero_f, one_f}
use qoe_test_harness.Prelude.Calls.{
  M, Post, Post->>=, Post->>, Post-return, Ends, Ends->>=, Ends-after, Ends-then, Ends-return,
}
use qoe_test_harness.Net.Seams.{Seams}
use qoe_test_harness.Net.Loopback.{Loopback}
use qoe_test_harness.Net.Loopback.Simulator.{simulator}
use qoe_test_harness.Net.LoadFlow.{LoadFlow, Sockets, opened, bps_of}
use qoe_test_harness.Net.LoadFlow.Steady.{Steady, Reliable, attempt-Runs, fatal-Runs, opened-Runs}
use qoe_test_harness.Batch.{RunError, attempt}
use qoe_test_harness.Latency.{Scenario, probe}
use qoe_test_harness.Latency.Classes.{probe-Separated}
use qoe_test_harness.Latency.Scenarios.{Flags, loaded_scenario, down_scenario, up_scenario}

module _ (fl : Float64) where
  open fl use {F, le, mul, div, of_ℕ, decimal, truncate}

  -- A scenario has the name that it is given.
  probe-Named :
      (seams : Seams) (sorted : List F → List F) (rounds : ℕ) (name : String) (n : ℕ)
      → Post (λ s. s.name ≡ name) (probe fl seams sorted rounds name n)
  unfolding probe
  probe-Named seams sorted rounds name n =
      Post->> _ _
        (Post->>= _ _ λ _ _ _ _. Post->>= _ _ λ _ _ _ _. Post->>= _ _ λ _ _ _ _. Post-return _ refl)

  module _ (fixed : ℕ → F → String) where
    -- The name is the label with the rate of the load, in Mbit/s.
    pub Titled : String → Scenario fl → Type 0
    Titled label s =
        (bps : ℕ) × (s.name ≡ label # " " # fixed 0 (div (of_ℕ bps) (decimal 1_000_000 0)) # "M")

  module _ (sorted : List F → List F) (fixed : ℕ → F → String)
      (same_number : (xs : List F) → length (sorted xs) ≡ length xs)
      (in_range : (xs : List F) (m k : ℕ)
        → le (decimal m k) (zero_f fl) ≡ false
        → le (one_f fl) (decimal m k) ≡ false
        → 0 < length xs
        → (le (zero_f fl) (mul (decimal m k) (of_ℕ (length xs - 1))) ≡ true)
          × (truncate (mul (decimal m k) (of_ℕ (length xs - 1))) < length xs))
      (sockets : Sockets Loopback) (reliable : Reliable sockets) (rounds : ℕ) (flags : Flags)
      (enough : flags.probes * 2 < rounds) where
    pub probe-Ends :
        (name : String) (l : Loopback)
        → l.pending ≡ []
        → Ends
            (λ s l'. (l'.pending ≡ []) × (s.name ≡ name))
            (probe fl simulator sorted rounds name flags.probes)
            l
    probe-Ends name l idle =
        let (s, l', run, emptied, _) =
          probe-Separated fl sorted same_number in_range rounds name flags.probes l idle enough in
        record {
          value = s;
          after = l';
          ends = run;
          has = (emptied, (probe-Named simulator sorted rounds name flags.probes).holds l s l' run);
        }

    -- A scenario of this label that leaves no echo pending.
    abbrev pub Scene : String → M RunError Loopback (Scenario fl) → Type 0
    Scene label m =
        (l : Loopback)
        → l.pending ≡ []
        → Ends (λ s l'. (l'.pending ≡ []) × Titled fixed label s) m l

    loaded_scenario-Scene :
        {Marked : Type 0} (text label : String) (mbps : ℕ) (flow : LoadFlow Loopback Marked)
        → Steady flow
        → Scene label
            (loaded_scenario fl simulator sockets sorted fixed rounds flags text label mbps flow)
    unfolding loaded_scenario Titled
    loaded_scenario-Scene text label mbps flow steady l idle =
        let (l', e, idle') = steady.set_rate_works (bps_of mbps) l idle in
        Ends-then _ _ _
          (fatal-Runs fl text (attempt fl simulator (flow.set_rate_bps (bps_of mbps))) l tt l'
            (attempt-Runs fl (flow.set_rate_bps (bps_of mbps)) l l' e))
          (Ends-then _ _ _ refl (
            Ends-after _ _ _ refl (
              Ends->>= _ _ _ (probe-Ends _ _ idle') λ s l2 (i, named). Ends-then _ _ _ refl (
                Ends-then _ _ _ refl (
                  Ends-then _ _ _ refl (
                    Ends-return s _
                      (steady.close_works _ (steady.stop_works l2 i), (_, named))))))))

    pub down_scenario-Scene :
        (label : String) (marking : ℕ)
        → Scene label (down_scenario fl simulator sockets sorted fixed rounds flags label marking)
    unfolding down_scenario
    down_scenario-Scene label marking l idle =
        let (d, l', e, idle', steady, marks) = reliable.dial_down_load_works 4 l idle in
        Ends-after _ _ _
          (fatal-Runs fl "dial down load" (opened (sockets.dial_down_load 4)) l d l'
            (opened-Runs fl (sockets.dial_down_load 4) l d l' e))
          (Ends-then _ _ _ refl (
            loaded_scenario-Scene "down load" label flags.down_mbps d steady _
              (marks marking l' idle')))

    pub up_scenario-Scene :
        (label : String) (marking : ℕ)
        → Scene label (up_scenario fl simulator sockets sorted fixed rounds flags label marking)
    unfolding up_scenario
    up_scenario-Scene label marking l idle =
        let (u, l', e, idle', steady, marks) = reliable.dial_load_works l idle in
        let (l2, e2, idle2) = marks marking l' idle' in
        Ends-after _ _ _
          (fatal-Runs fl "dial up load" (opened sockets.dial_load) l u l'
            (opened-Runs fl sockets.dial_load l u l' e))
          (Ends-then _ _ _
            (fatal-Runs fl "up mark" (attempt fl simulator (u.set_marking marking)) l' tt l2
              (attempt-Runs fl (u.set_marking marking) l' l2 e2))
            (loaded_scenario-Scene "up load" label flags.up_mbps u steady l2 idle2))
