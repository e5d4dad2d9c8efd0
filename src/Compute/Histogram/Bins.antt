-- ===== src/Compute/Histogram/Bins.antt =====
-- What a quantile is: the bin that reaches a share of the samples, and a value between its edges.
use qoe_test_harness.Prelude.{
  ℕ, zero, suc, ◌+◌, ◌<◌, ◌≡◌, subst, subst₂, true, false, if◌then◌else◌, some, List, [], ◌∷◌, ok,
  length, get_elem?, get_or, ◌==◌, arith,
}
use mathlib.Core.Option.{some-injective}
use native.Mathlib.Numerals.{add-one}
use qoe_test_harness.Prelude.Floats.{Float64}
use qoe_test_harness.Compute.Histogram.{at}

module _ (fl : Float64) where
  open fl use {F, add, sub, mul, div, le, lt, of_ℕ}

  -- Neighbouring edges are ordered, and the upper one is the lower one plus their difference, as it
  -- is with edges and differences that a float64 holds exactly.
  pub record ExactStep (lo hi : F) : Type 0 where
    pub ordered_step : le lo hi ≡ true
    pub exact : add lo (sub hi lo) ≡ hi
    pub number : le hi hi ≡ true
    pub lower_number : le lo lo ≡ true

  abbrev pub Stepped : List F → Type 0
  Stepped [] = Unit {0}
  Stepped (x ∷ []) = Unit {0}
  Stepped (x ∷ y ∷ xs) = ExactStep x y × Stepped (y ∷ xs)

  -- `q` lies in bin `i`: at or above its edge, and at or below the next edge, if there is one.
  pub record InBin (edges : List F) (i : ℕ) (q : F) : Type 0 where
    pub lower : F
    pub is_lower : at edges i ≡ ok lower
    pub above : le lower q ≡ true
    pub below : (hi : F) → at edges (i + 1) ≡ ok hi → le q hi ≡ true

  -- The samples of the first `k` bins, added to `cum` bin by bin.
  abbrev pub sum_before : F → List ℕ → ℕ → F
  sum_before cum cs zero = cum
  sum_before cum [] (suc k) = cum
  sum_before cum (c ∷ cs) (suc k) =
      let skip = sum_before cum cs k in
      let more = sum_before (add cum (of_ℕ c)) cs k in if c == 0 then skip else more

  -- The samples up to bin `k` and those of the bin reach the target.
  abbrev pub Reaches : F → F → List ℕ → ℕ → Type 0
  Reaches target cum cs k = le target (sum_before cum cs (suc k)) ≡ true

  -- No bin with samples before `k` reaches the target.
  abbrev pub NoneBefore : F → F → List ℕ → ℕ → Type 0
  NoneBefore target cum cs k =
      (j : ℕ) → j < k → 0 < get_or cs j 0 → le target (sum_before cum cs (suc j)) ≡ false

  pub Stepped-at :
      (edges : List F) (i : ℕ) (lo hi : F)
      → Stepped edges
      → get_elem? edges i ≡ some lo
      → get_elem? edges (suc i) ≡ some hi
      → ExactStep lo hi
  Stepped-at [] i lo hi h p q = cc
  Stepped-at (x ∷ []) zero lo hi h p q = cc
  Stepped-at (x ∷ []) (suc i) lo hi h p q = cc
  Stepped-at (x ∷ y ∷ xs) zero lo hi h p q =
      subst₂ ExactStep (some-injective x lo p) (some-injective y hi q) h.0
  Stepped-at (x ∷ y ∷ xs) (suc i) lo hi h p q = Stepped-at (y ∷ xs) i lo hi h.1 p q

  pub at→get_elem? : (xs : List F) (i : ℕ) (x : F) → at xs i ≡ ok x → get_elem? xs i ≡ some x
  at→get_elem? xs i x e = ground arith

  pub get_elem?-lt : (xs : List F) (i : ℕ) (x : F) → get_elem? xs i ≡ some x → i < length xs
  get_elem?-lt [] i x e = cc
  get_elem?-lt (y ∷ xs) zero x e = omega arith
  get_elem?-lt (y ∷ xs) (suc i) x e = omega (arith, get_elem?-lt xs i x e)

  pub step_at :
      (edges : List F) (i : ℕ) (lo hi : F)
      → Stepped edges
      → at edges i ≡ ok lo
      → at edges (i + 1) ≡ ok hi
      → ExactStep lo hi
  step_at edges i lo hi h p q =
      Stepped-at edges i lo hi h (at→get_elem? edges i lo p)
        (subst (λ k. get_elem? edges k ≡ some hi) (add-one i) (at→get_elem? edges (i + 1) hi q))
