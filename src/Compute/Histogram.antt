-- ===== src/Compute/Histogram.antt =====
-- core/compute/histogram.go: fixed-bin-edge histograms. A counter is a uint64 and wraps; a read or
-- a write outside a slice is a run-time panic.
pub mod Search
pub mod Counts
pub mod Merge
pub mod Bins
pub mod Quantile
pub mod Returns
pub mod Bags
pub mod Refines
use qoe_test_harness.Prelude.{
  ℕ, zero, suc, ◌+◌, ◌-◌, ◌/◌, ◌%◌, ◌^◌, ◌<◌, ◌≡◌, Bool, true, false, not, Option, none, some, List,
  [], ◌∷◌, map, Result, ok, err, ◌>>=◌, length, get_elem?, set, replicate, ltb, ◌==◌, if◌then◌else◌,
  All,
}
use qoe_test_harness.Prelude.Floats.{Float64, zero_f, one_f}

-- `index_out_of_range` is Go's panic. `out_of_fuel` is no Go value: the loop of `bin_search` would
-- have needed more rounds.
pub data Fault : Type 0 where
  index_out_of_range out_of_fuel : Fault

-- `xs[i]`.
abbrev pub at {ℓ} : {A : Type ℓ} → List A → ℕ → Result Fault A
at xs i = elim (get_elem? xs i) [ some x ↦ ok x | none ↦ err index_out_of_range ]

abbrev pub wrap : ℕ → ℕ
wrap n = n % 2 ^ 64

pub data MergeError : Type 0 where
  edges_mismatch : MergeError
  panic : Fault → MergeError

-- `for _, c := range h.Counts { t += c }`
abbrev pub sum_from : ℕ → List ℕ → ℕ
sum_from t [] = t
sum_from t (c ∷ cs) = sum_from (wrap (t + c)) cs

-- `for i, c := range other.Counts { h.Counts[i] += c }`
abbrev pub add_counts : List ℕ → List ℕ → Result Fault (List ℕ)
add_counts xs [] = ok xs
add_counts [] (c ∷ cs) = err index_out_of_range
add_counts (x ∷ xs) (c ∷ cs) = do rest ← add_counts xs cs; ok (wrap (x + c) ∷ rest)

abbrev or_panic {ℓ} : {A : Type ℓ} → Result Fault A → Result MergeError A
or_panic (ok a) = ok a
or_panic (err f) = err (panic f)

module _ (fl : Float64) where
  open fl use {F, add, sub, mul, div, le, lt, eq, of_ℕ, decimal}

  pub record Histogram : Type 0 where
    pub edges : List F
    pub counts : List ℕ

  -- 0, 0.5, 1, 1.5, 2, 3, 4, 5, 7.5, 10, 12.5, 15, 20, …, 1000, in tenths.
  abbrev pub default_edges_ms : List F
  default_edges_ms =
      map (λ n. decimal n 1)
        (0 ∷ 5 ∷ 10 ∷ 15 ∷ 20 ∷ 30 ∷ 40 ∷ 50 ∷ 75 ∷ 100 ∷ 125 ∷ 150 ∷ 200 ∷ 250 ∷ 300 ∷ 400 ∷ 500
          ∷ 750 ∷ 1000 ∷ 1500 ∷ 2500 ∷ 5000 ∷ 10000 ∷ [])

  unfoldable pub new_histogram : List F → Histogram
  new_histogram edges = record { edges = edges; counts = replicate (length edges) 0 }

  unfoldable pub new_default_histogram : Histogram
  unfolding new_histogram
  new_default_histogram = new_histogram default_edges_ms

  -- The loop of `binIndex`, on fuel: how many rounds it may still take.
  unfoldable pub bin_search : ℕ → List F → F → ℕ → ℕ → Result Fault ℕ
  bin_search zero edges v lo hi = if ltb lo hi then err out_of_fuel else ok lo
  bin_search (suc fuel) edges v lo hi =
      let mid = (lo + hi) / 2 in
      elim (ltb lo hi) [
        | false ↦ ok lo
        | true ↦ elim (get_elem? edges mid) [
          | none ↦ err index_out_of_range
          | some e ↦ elim (le e v) [
            | true ↦ bin_search fuel edges v (mid + 1) hi
            | false ↦ bin_search fuel edges v lo mid
          ]
        ]
      ]

  -- The range shrinks in each round, so its first length is fuel enough.
  unfoldable pub bin_index : List F → F → Result Fault ℕ
  bin_index edges v = do
    lo ← bin_search (length edges) edges v 0 (length edges)
    ok (if lo == 0 then 0 else lo - 1)

  unfoldable pub observe : Histogram → F → Result Fault Histogram
  observe h v = do
    i ← bin_index h.edges v
    c ← at h.counts i
    ok (record h { counts = set h.counts i (wrap (c + 1)) })

  unfoldable pub total : Histogram → ℕ
  total h = sum_from 0 h.counts

  abbrev pub same_elements : List F → List F → Bool
  same_elements [] [] = true
  same_elements [] (b ∷ bs) = true
  same_elements (a ∷ xs) [] = true
  same_elements (a ∷ xs) (b ∷ bs) =
      let rest = same_elements xs bs in if not (eq a b) then false else rest

  abbrev pub equal_edges : List F → List F → Bool
  equal_edges a b = if not (length a == length b) then false else same_elements a b

  unfoldable pub merge : Histogram → Histogram → Result MergeError Histogram
  merge h other = if not (equal_edges h.edges other.edges) then err edges_mismatch else (do
    counts ← or_panic (add_counts h.counts other.counts)
    ok (record h { counts = counts }))

  -- A share, cut to 0 and 1.
  abbrev pub clamp_unit : F → F
  clamp_unit x = if lt x (zero_f fl) then zero_f fl else if lt (one_f fl) x then one_f fl else x

  -- The value that `Quantile` returns from bin `i`, which holds `c` samples, `prev` before it.
  unfoldable pub interpolate : List F → ℕ → ℕ → F → F → Result Fault F
  interpolate edges i c target prev = do
    lo ← at edges i
    if i == length edges - 1 then ok lo else (do
      hi ← at edges (i + 1)
      ok (add lo (mul (clamp_unit (div (sub target prev) (of_ℕ c))) (sub hi lo))))

  -- The loop of `Quantile` over the bins from `i` on.
  unfoldable pub quantile_loop : List F → F → List ℕ → ℕ → F → Result Fault F
  quantile_loop edges target [] i cum = at edges (length edges - 1)
  quantile_loop edges target (c ∷ cs) i cum =
      let skip = quantile_loop edges target cs (i + 1) cum in
      let next = quantile_loop edges target cs (i + 1) (add cum (of_ℕ c)) in
      if c == 0
      then skip
      else if le target (add cum (of_ℕ c))
      then interpolate edges i c target cum
      else next

  unfoldable pub quantile : Histogram → F → Result Fault F
  quantile h p =
      if total h == 0
      then ok (zero_f fl)
      else quantile_loop h.edges (mul (clamp_unit p) (of_ℕ (total h))) h.counts 0 (zero_f fl)
