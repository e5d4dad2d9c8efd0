-- ===== src/Latency/Order.antt =====
-- The scenarios of qoe-latency over the simulated path.
use Prim.Native.String.{String}
use qoe_test_harness.Prelude.{
  true, ℕ, ◌-◌, ◌*◌, ◌<◌, ◌≡◌, refl, Bool, false, inl, inr, List, [], ◌∷◌, ◌++◌, length, Bool-cases,
  if◌then◌else◌,
}
use qoe_test_harness.Prelude.Floats.{Float64, zero_f, one_f}
use qoe_test_harness.Prelude.Calls.{M, Runs, ◌>>=◌, return, Ends, Ends->>=, Ends-then, Ends-return}
use qoe_test_harness.Net.Conn.{not_ect, ll_mark}
use qoe_test_harness.Net.Loopback.{Loopback}
use qoe_test_harness.Net.Loopback.Simulator.{simulator}
use qoe_test_harness.Net.LoadFlow.{Sockets}
use qoe_test_harness.Net.LoadFlow.Steady.{Reliable, attempt-Runs, fatal-Runs}
use qoe_test_harness.Batch.{RunError, attempt}
use qoe_test_harness.Latency.{Scenario}
use qoe_test_harness.Latency.Scenarios.{Flags, in_turn, loaded_scenarios, measure}
use qoe_test_harness.Latency.Scenes.{
  Titled, Scene, probe-Ends, down_scenario-Scene, up_scenario-Scene,
}

module _ (fl : Float64) where
  open fl use {F, le, mul, of_ℕ, decimal, truncate}

  module _ (fixed : ℕ → F → String) where
    abbrev pub AllTitled : List String → List (Scenario fl) → Type 0
    AllTitled [] [] = Unit {0}
    AllTitled [] (s ∷ ss) = ⊥
    AllTitled (x ∷ xs) [] = ⊥
    AllTitled (x ∷ xs) (s ∷ ss) = Titled fl fixed x s × AllTitled xs ss

  -- The loads in their order.
  abbrev pub labels : Bool → List String
  labels ll_first =
      if ll_first
      then "DOWN/LL-load" ∷ "DOWN/cl-load" ∷ "UP/LL-load" ∷ "UP/cl-load" ∷ []
      else "DOWN/cl-load" ∷ "DOWN/LL-load" ∷ "UP/cl-load" ∷ "UP/LL-load" ∷ []

  -- The idle scenario, and one for each load.
  abbrev pub InOrder : (ℕ → F → String) → Bool → List (Scenario fl) → Type 0
  InOrder fixed ll_first [] = ⊥
  InOrder fixed ll_first (idle ∷ loaded) =
      (idle.name ≡ "idle") × AllTitled fixed (labels ll_first) loaded

  module _ (sorted : List F → List F) (fixed : ℕ → F → String)
      (same_number : (xs : List F) → length (sorted xs) ≡ length xs)
      (in_range : (xs : List F) (m k : ℕ)
        → le (decimal m k) (zero_f fl) ≡ false
        → le (one_f fl) (decimal m k) ≡ false
        → 0 < length xs
        → (le (zero_f fl) (mul (decimal m k) (of_ℕ (length xs - 1))) ≡ true)
          × (truncate (mul (decimal m k) (of_ℕ (length xs - 1))) < length xs))
      (sockets : Sockets Loopback) (reliable : Reliable sockets) (rounds : ℕ) (flags : Flags)
      (enough : flags.probes * 2 < rounds) where
    -- Scenarios of these labels that leave no echo pending.
    abbrev Scenes : List String → List (Scenario fl) → Loopback → Type 0
    Scenes xs ss l = (l.pending ≡ []) × AllTitled fixed xs ss

    in_turn-Ends :
        (x y : String) (first second : M RunError Loopback (Scenario fl)) (l : Loopback)
        → Scene fl sorted fixed same_number in_range sockets reliable rounds flags enough x first
        → Scene fl sorted fixed same_number in_range sockets reliable rounds flags enough y second
        → l.pending ≡ []
        → Ends
            (Scenes (x ∷ y ∷ []))
            (in_turn fl simulator sockets sorted fixed rounds flags first second)
            l
    in_turn-Ends x y first second l p q idle =
        Ends->>= _ _ _ (p l idle)
          λ a l (i, ta). Ends->>= _ _ _ (q l i) λ b l (i, tb). Ends-return _ _ (i, (ta, (tb, tt)))

    append-AllTitled :
        (xs ys : List String) (ss ts : List (Scenario fl))
        → AllTitled fixed xs ss
        → AllTitled fixed ys ts
        → AllTitled fixed (xs ++ ys) (ss ++ ts)
    append-AllTitled [] ys [] ts p q = q
    append-AllTitled [] ys (s ∷ ss) ts p q = absurd p
    append-AllTitled (x ∷ xs) ys [] ts p q = absurd p
    append-AllTitled (x ∷ xs) ys (s ∷ ss) ts (t, p) q = (t, append-AllTitled xs ys ss ts p q)

    -- Two scenarios of the one direction, then two of the other.
    both-Ends :
        (xs ys : List String) (first second : M RunError Loopback (List (Scenario fl)))
        (l : Loopback)
        → l.pending ≡ []
        → Ends (Scenes xs) first l
        → ((l' : Loopback) → l'.pending ≡ [] → Ends (Scenes ys) second l')
        → Ends (Scenes (xs ++ ys)) (first >>= λ downs. second >>= λ ups. return (downs ++ ups)) l
    both-Ends xs ys first second l idle p q = Ends->>= _ _ _ p λ downs l (i, a).
        Ends->>= _ _ _ (q l i)
          λ ups l (i, b). Ends-return _ _ (i, append-AllTitled xs ys downs ups a b)

    loaded_scenarios-Ends :
        (l : Loopback)
        → l.pending ≡ []
        → Ends
            (Scenes (labels flags.ll_first))
            (loaded_scenarios fl simulator sockets sorted fixed rounds flags)
            l
    unfolding loaded_scenarios
    loaded_scenarios-Ends l idle = elim (Bool-cases flags.ll_first) [
      | inl swapped ↦ rw swapped (
          both-Ends ("DOWN/LL-load" ∷ "DOWN/cl-load" ∷ []) ("UP/LL-load" ∷ "UP/cl-load" ∷ []) _ _ l
            idle
            (in_turn-Ends _ _ _ _ l
              (down_scenario-Scene fl sorted fixed same_number in_range sockets reliable rounds
                flags enough "DOWN/LL-load" ll_mark)
              (down_scenario-Scene fl sorted fixed same_number in_range sockets reliable rounds
                flags enough "DOWN/cl-load" not_ect)
              idle)
            (λ l' i.
              in_turn-Ends _ _ _ _ l'
                (up_scenario-Scene fl sorted fixed same_number in_range sockets reliable rounds
                  flags enough "UP/LL-load" ll_mark)
                (up_scenario-Scene fl sorted fixed same_number in_range sockets reliable rounds
                  flags enough "UP/cl-load" not_ect)
                i))
      | inr usual ↦ rw usual (
          both-Ends ("DOWN/cl-load" ∷ "DOWN/LL-load" ∷ []) ("UP/cl-load" ∷ "UP/LL-load" ∷ []) _ _ l
            idle
            (in_turn-Ends _ _ _ _ l
              (down_scenario-Scene fl sorted fixed same_number in_range sockets reliable rounds
                flags enough "DOWN/cl-load" not_ect)
              (down_scenario-Scene fl sorted fixed same_number in_range sockets reliable rounds
                flags enough "DOWN/LL-load" ll_mark)
              idle)
            (λ l' i.
              in_turn-Ends _ _ _ _ l'
                (up_scenario-Scene fl sorted fixed same_number in_range sockets reliable rounds
                  flags enough "UP/cl-load" not_ect)
                (up_scenario-Scene fl sorted fixed same_number in_range sockets reliable rounds
                  flags enough "UP/LL-load" ll_mark)
                i))
    ]

    measure-Ends :
        (l : Loopback)
        → l.pending ≡ []
        → Ends
            (λ ss l'. InOrder fixed flags.ll_first ss)
            (measure fl simulator sockets sorted fixed rounds flags)
            l
    unfolding measure
    measure-Ends l idle =
        let (l', dialled, i) = reliable.dial_works l idle in
        Ends-then _ _ _
          (fatal-Runs fl "dial probe socket" (attempt fl simulator sockets.dial) l tt l'
            (attempt-Runs fl sockets.dial l l' dialled))
          (Ends-then _ _ _ refl (
            Ends->>= _ _ _
              (probe-Ends fl sorted fixed same_number in_range sockets reliable rounds flags enough
                "idle" _ (reliable.handshake_works 1 l' i))
              λ s l (i, named).
                Ends->>= _ _ _ (loaded_scenarios-Ends l i)
                  λ loaded l (i, titled). Ends-return _ _ (named, titled)))

    -- When the sort keeps the number of samples, a product p * (n - 1) with a constant p between 0 and 1 is not negative and is
    -- truncated to a number below n,
    -- the sockets open, take the marks and start the loads, and there are more rounds than probes of both classes, main of
    -- qoe-latency over a simulated path with no echo pending returns, also when the handshake fails. It has the idle scenario
    -- first and then one for each load, in the order that the flag asks for, each named after its load with some rate in Mbit/s.
    pub measure_returns :
        (l : Loopback)
        → l.pending ≡ []
        → (scenarios : List (Scenario fl)) × (l' : Loopback) × Runs
            (measure fl simulator sockets sorted fixed rounds flags)
            l
            scenarios
            l'
          × InOrder fixed flags.ll_first scenarios
    measure_returns l none_pending =
        let e = measure-Ends l none_pending in (e.value, e.after, e.ends, e.has)
