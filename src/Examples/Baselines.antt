-- ===== src/Examples/Baselines.antt =====
-- core/compute/stats.go at three samples.
use qoe_test_harness.Prelude.{ℕ, ◌≡◌, refl, List, [], ◌∷◌, ok}
use qoe_test_harness.Compute.Stats.{between_ranks, base_rtt, working_delta}
use qoe_test_harness.Examples.Fixed.{fixed}

abbrev backwards : List ℕ → List ℕ → List ℕ
backwards acc [] = acc
backwards acc (x ∷ xs) = backwards (x ∷ acc) xs

-- 10, 20 and 40 ms, measured in falling order.
base_rtt_test : base_rtt fixed (backwards []) (40_000 ∷ 20_000 ∷ 10_000 ∷ []) 750 ≡ ok 30_000
unfolding base_rtt between_ranks
base_rtt_test = refl

working_delta_test :
    (working_delta fixed 12_000 10_000 ≡ 2000) × (working_delta fixed 9000 10_000 ≡ 0)
unfolding working_delta
working_delta_test = (refl, refl)
