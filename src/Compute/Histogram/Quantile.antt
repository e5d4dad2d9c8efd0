-- ===== src/Compute/Histogram/Quantile.antt =====
-- Where a quantile lies.
use qoe_test_harness.Prelude.{
  ℕ, zero, suc, ◌+◌, ◌-◌, ◌<◌, ◌≡◌, ◌≢◌, ◌⊎◌, inl, inr, sym, subst, subst₂, ◌∙◌, true, false, refl,
  List, [], ◌∷◌, ok, length, get_or, ◌==◌, arith, Bool-cases, >>=-eq-ok, ok-injective, ==_iff,
}
use native.Mathlib.Nat.{zero-add, add-zero}
use qoe_test_harness.Prelude.Floats.{Float64, Ordered, Rounded, zero_f, one_f}
use qoe_test_harness.Compute.Histogram.{
  Histogram, at, total, clamp_unit, interpolate, quantile_loop, quantile,
}
use qoe_test_harness.Compute.Histogram.Bins.{
  ExactStep, Stepped, InBin, Reaches, NoneBefore, sum_before, at→get_elem?, get_elem?-lt, step_at,
}

module _ (fl : Float64) (ordered : Ordered fl) (rounded : Rounded fl) where
  open fl use {F, add, sub, mul, div, le, lt, of_ℕ}

  clamp_unit_bounds :
      (x : F)
      → le (clamp_unit fl x) (clamp_unit fl x) ≡ true
      → (le (zero_f fl) (clamp_unit fl x) ≡ true) × (le (clamp_unit fl x) (one_f fl) ≡ true)
  clamp_unit_bounds x n = ground (
    arith,
    ordered.lt_def x (zero_f fl),
    ordered.lt_def (one_f fl) x,
    ordered.le_total x (zero_f fl),
    ordered.le_total x (one_f fl),
    ordered.le_total (one_f fl) x,
    rounded.decimal_mono 0 0 0,
    rounded.decimal_mono 1 1 0,
    rounded.decimal_mono 0 1 0,
  )

  -- The value between two edges.
  between :
      (lo hi x q : F)
      → ExactStep fl lo hi
      → add lo (mul (clamp_unit fl x) (sub hi lo)) ≡ q
      → le q q ≡ true
      → (le lo q ≡ true) × (le q hi ≡ true)
  between lo hi x q step e q_num = (
    subst (λ z. le lo z ≡ true) e (rounded.add_nonneg lo m m_nonneg num),
    subst₂ (λ z w. le z w ≡ true) e step.exact
        (rounded.add_mono lo m (sub hi lo) m-le num
          (subst (λ z. le z z ≡ true) (sym step.exact) step.number)),
  )
    where
      m : F
      m = mul (clamp_unit fl x) (sub hi lo)

      num : le (add lo m) (add lo m) ≡ true
      num = subst (λ z. le z z ≡ true) (sym e) q_num

      m_num : le m m ≡ true
      m_num = (rounded.add-num lo m num).1

      parts : (le (clamp_unit fl x) (clamp_unit fl x) ≡ true) × (le (sub hi lo) (sub hi lo) ≡ true)
      parts = rounded.mul-num (clamp_unit fl x) (sub hi lo) m_num

      gap_nonneg : le (zero_f fl) (sub hi lo) ≡ true
      gap_nonneg = rounded.sub_nonneg lo hi step.ordered_step parts.1

      m_nonneg : le (zero_f fl) m ≡ true
      m_nonneg =
          rounded.mul_nonneg (clamp_unit fl x) (sub hi lo) (clamp_unit_bounds x parts.0).0
            gap_nonneg m_num

      m-le : le m (sub hi lo) ≡ true
      m-le =
          rounded.mul-le_right (clamp_unit fl x) (sub hi lo) (clamp_unit_bounds x parts.0).1
            gap_nonneg m_num

  none_before :
      (target cum cum' : F) (c : ℕ) (cs : List ℕ) (k : ℕ)
      → ((k : ℕ) → sum_before fl cum (c ∷ cs) (suc k) ≡ sum_before fl cum' cs k)
      → (0 < c → le target cum' ≡ false)
      → NoneBefore fl target cum' cs k
      → NoneBefore fl target cum (c ∷ cs) (suc k)
  none_before target cum cum' c cs k same short first zero h filled =
      subst (λ z. le target z ≡ false) (sym (same 0)) (short filled)
  none_before target cum cum' c cs k same short first (suc j) h filled =
      subst (λ z. le target z ≡ false) (sym (same (suc j))) (first j (omega arith) filled)

  module _ (edges : List F) (steps : Stepped fl edges) where
    last_bin :
        (i : ℕ) (lo q : F)
        → at edges i ≡ ok lo
        → (i == length edges - 1) ≡ true
        → lo ≡ q
        → le q q ≡ true
        → InBin fl edges i q
    last_bin i lo q is_lo last r q_num = record {
      lower = lo;
      is_lower = is_lo;
      above = subst (λ z. le z q ≡ true) (sym r) q_num;
      below = λ hi p. absurd (outside hi p);
    }
      where
        outside : (hi : F) → at edges (i + 1) ≡ ok hi → ⊥
        outside hi p = omega (
          arith,
          (==_iff i (length edges - 1)).0 last,
          get_elem?-lt fl edges i lo (at→get_elem? fl edges i lo is_lo),
          get_elem?-lt fl edges (i + 1) hi (at→get_elem? fl edges (i + 1) hi p),
        )

    inner_bin :
        (i : ℕ) (lo hi x q : F)
        → at edges i ≡ ok lo
        → at edges (i + 1) ≡ ok hi
        → add lo (mul (clamp_unit fl x) (sub hi lo)) ≡ q
        → le q q ≡ true
        → InBin fl edges i q
    inner_bin i lo hi x q is_lo is_hi r q_num =
        let (above, below) =
          between lo hi x q (step_at fl edges i lo hi steps is_lo is_hi) r q_num in
        record {
          lower = lo;
          is_lower = is_lo;
          above = above;
          below = λ hi' p. subst (λ z. le q z ≡ true) (ok-injective hi hi' (sym is_hi ∙ p)) below;
        }

    interpolate-InBin :
        (i c : ℕ) (target prev q : F)
        → interpolate fl edges i c target prev ≡ ok q
        → le q q ≡ true
        → InBin fl edges i q
    unfolding interpolate
    interpolate-InBin i c target prev q e q_num =
        let (lo, is_lo, rest) = >>=-eq-ok (at edges i) _ e in
        elim (Bool-cases (i == length edges - 1)) [
          | inl last ↦ last_bin i lo q is_lo last (ok-injective lo q (rw last at rest)) q_num
          | inr inner ↦
              let (hi, is_hi, value) = >>=-eq-ok (at edges (i + 1)) _ (rw inner at rest) in
              inner_bin i lo hi _ q is_lo is_hi (ok-injective _ q value) q_num
        ]

    -- The first bin with samples that reaches the target, the `k`-th from bin `i` on; or the last
    -- edge, if none does.
    abbrev Found : F → F → List ℕ → ℕ → F → Type 0
    Found target cum cs i q =
        ((k : ℕ) × (0 < get_or cs k 0)
          × Reaches fl target cum cs k
          × NoneBefore fl target cum cs k
          × InBin fl edges (i + k) q)
        ⊎ (NoneBefore fl target cum cs (length cs) × (at edges (length edges - 1) ≡ ok q))

    -- After a bin that is empty or does not reach the target.
    later :
        (target cum cum' : F) (c : ℕ) (cs : List ℕ) (i : ℕ) (q : F)
        → ((k : ℕ) → sum_before fl cum (c ∷ cs) (suc k) ≡ sum_before fl cum' cs k)
        → (0 < c → le target cum' ≡ false)
        → Found target cum' cs (i + 1) q
        → Found target cum (c ∷ cs) i q
    later target cum cum' c cs i q same short (inl (k, filled, reached, first, b)) = inl (
      suc k,
      filled,
      subst (λ z. le target z ≡ true) (sym (same (suc k))) reached,
      none_before target cum cum' c cs k same short first,
      subst (λ j. InBin fl edges j q) (shift i k) b,
    )
      where
        shift : (m n : ℕ) → m + 1 + n ≡ m + suc n
        shift m n = omega arith
    later target cum cum' c cs i q same short (inr (first, e)) =
        inr (none_before target cum cum' c cs (length cs) same short first, e)

    -- What the loop over the bins from `i` on returns.
    quantile_loop-InBin :
        (target : F) (cs : List ℕ) (i : ℕ) (cum q : F)
        → quantile_loop fl edges target cs i cum ≡ ok q
        → le q q ≡ true
        → Found target cum cs i q
    unfolding quantile_loop
    quantile_loop-InBin target [] i cum q e q_num = inr ((λ j h p. absurd (omega arith)), e)
    quantile_loop-InBin target (c ∷ cs) i cum q e q_num = elim (Bool-cases (c == 0)) [
      | inl empty ↦
          later target cum cum c cs i q (λ k. rw empty refl) (λ filled. absurd (ground arith))
            (quantile_loop-InBin target cs (i + 1) cum q (rw empty at e) q_num)
      | inr some_samples ↦ elim (Bool-cases (le target (add cum (of_ℕ c)))) [
        | inl reached ↦ inl (
          0,
          ground arith,
          rw some_samples reached,
          (λ j h p. absurd (omega arith)),
          subst (λ j. InBin fl edges j q) (sym (add-zero i))
              (interpolate-InBin i c target cum q (rw (some_samples, reached) at e) q_num),
        )
        | inr short ↦
            later target cum (add cum (of_ℕ c)) c cs i q (λ k. rw some_samples refl)
              (λ filled. short)
              (quantile_loop-InBin target cs (i + 1) (add cum (of_ℕ c)) q
                (rw (some_samples, short) at e) q_num)
      ]
    ]

  -- When neighbouring edges are ordered numbers and each is its lower neighbour plus their exact difference, a quantile of a
  -- histogram that is not empty, if it is a number, lies between the edges of the first bin with samples at which the samples
  -- counted so far reach the share p, cut to 0 and 1, of all samples; or no bin reaches it and the quantile is the last edge.
  pub quantile-InBin :
      (h : Histogram fl) (p q : F)
      → Stepped fl h.edges
      → total fl h ≢ 0
      → quantile fl h p ≡ ok q
      → le q q ≡ true
      → ((i : ℕ) × (0 < get_or h.counts i 0)
          × Reaches fl (mul (clamp_unit fl p) (of_ℕ (total fl h))) (zero_f fl) h.counts i
          × NoneBefore fl (mul (clamp_unit fl p) (of_ℕ (total fl h))) (zero_f fl) h.counts i
          × InBin fl h.edges i q)
        ⊎ (NoneBefore fl
              (mul (clamp_unit fl p) (of_ℕ (total fl h)))
              (zero_f fl)
              h.counts
              (length h.counts)
            × (at h.edges (length h.edges - 1) ≡ ok q))
  unfolding quantile
  quantile-InBin h p q steps filled e q_num = elim (Bool-cases (total fl h == 0)) [
    | inl empty ↦ absurd (filled ((==_iff (total fl h) 0).0 empty))
    | inr some_samples ↦
        elim (quantile_loop-InBin h.edges steps _ h.counts 0 (zero_f fl) q (rw some_samples at e)
          q_num) [
            | inl (k, c, reached, first, b) ↦
                inl (k, c, reached, first, subst (λ j. InBin fl h.edges j q) (zero-add k) b)
            | inr last ↦ inr last
          ]
  ]
