-- ===== src/Compute/Histogram/Search.antt =====
-- `bin_index` against a count of the edges, on ascending edges.
use qoe_test_harness.Prelude.{
  ℕ, zero, suc, ◌+◌, ◌-◌, ◌/◌, ◌<◌, ◌≤◌, ◌≡◌, inl, inr, refl, ap, true, false, some, List, [], ◌∷◌,
  ok, length, get_elem?, ltb, ◌==◌, if◌then◌else◌, arith, Bool-cases,
}
use qoe_test_harness.Prelude.Floats.{Float64, Ordered}
use qoe_test_harness.Compute.Histogram.{at, bin_search, bin_index}

-- A read inside a slice does not panic.
pub at_inside {ℓ} : {A : Type ℓ} (xs : List A) (i : ℕ) → i < length xs → (x : A) × (at xs i ≡ ok x)
at_inside [] i h = absurd (omega arith)
at_inside (x ∷ xs) zero h = (x, refl)
at_inside (x ∷ xs) (suc i) h = at_inside xs i (omega arith)

module _ (fl : Float64) where
  open fl use {F, le}

  -- Each edge is at most the next.
  abbrev pub Ascending : List F → Type 0
  Ascending [] = Unit {0}
  Ascending (x ∷ []) = Unit {0}
  Ascending (x ∷ y ∷ xs) = (le x y ≡ true) × Ascending (y ∷ xs)

  -- How many edges are at most `v`.
  unfoldable pub count_at_most : List F → F → ℕ
  count_at_most [] v = 0
  count_at_most (x ∷ xs) v = if le x v then suc (count_at_most xs v) else count_at_most xs v

  pub count_at_most-le : (xs : List F) (v : F) → count_at_most xs v ≤ length xs
  unfolding count_at_most
  count_at_most-le [] v = omega arith
  count_at_most-le (x ∷ xs) v = ground (arith, count_at_most-le xs v)

  -- The bin of `v`: that of the last edge at most `v`, or bin 0 if there is none.
  unfoldable pub bin_of : List F → F → ℕ
  bin_of edges v = if count_at_most edges v == 0 then 0 else count_at_most edges v - 1

module _ (fl : Float64) (ordered : Ordered fl) where
  open fl use {F, le}
  open ordered use {le_trans}

  Ascending-tail : (x : F) (xs : List F) → Ascending fl (x ∷ xs) → Ascending fl xs
  Ascending-tail x [] h = tt
  Ascending-tail x (y ∷ xs) h = h.1

  head-le :
      (x : F) (xs : List F) (i : ℕ) (e : F)
      → Ascending fl (x ∷ xs)
      → get_elem? xs i ≡ some e
      → le x e ≡ true
  head-le x [] i e h g = cc
  head-le x (y ∷ xs) zero e h g = ground arith
  head-le x (y ∷ xs) (suc i) e h g = le_trans x y e h.0 (head-le y xs i e h.1 g)

  none_at_most :
      (x : F) (xs : List F) (v : F)
      → Ascending fl (x ∷ xs)
      → le x v ≡ false
      → count_at_most fl (x ∷ xs) v ≡ 0
  unfolding count_at_most
  none_at_most x [] v h n = rw n
  none_at_most x (y ∷ xs) v h n = ground (arith, none_at_most y xs v h.1, le_trans x y v h.0)

  count_above :
      (xs : List F) (v : F) (i : ℕ) (e : F)
      → Ascending fl xs
      → get_elem? xs i ≡ some e
      → le e v ≡ true
      → i < count_at_most fl xs v
  unfolding count_at_most
  count_above [] v i e h g l = cc
  count_above (x ∷ xs) v zero e h g l = ground arith
  count_above (x ∷ xs) v (suc i) e h g l = ground (
    arith,
    count_above xs v i e (Ascending-tail x xs h) g l,
    le_trans x e v (head-le x xs i e h g) l,
  )

  count_below :
      (xs : List F) (v : F) (i : ℕ) (e : F)
      → Ascending fl xs
      → get_elem? xs i ≡ some e
      → le e v ≡ false
      → count_at_most fl xs v ≤ i
  unfolding count_at_most
  count_below [] v i e h g l = cc
  count_below (x ∷ xs) v zero e h g l = ground (arith, none_at_most x xs v h)
  count_below (x ∷ xs) v (suc i) e h g l =
      ground (arith, count_below xs v i e (Ascending-tail x xs h) g l)

  get_elem?-inside : (xs : List F) (i : ℕ) → i < length xs → (e : F) × (get_elem? xs i ≡ some e)
  get_elem?-inside [] i h = absurd (omega arith)
  get_elem?-inside (x ∷ xs) zero h = (x, refl)
  get_elem?-inside (x ∷ xs) (suc i) h = get_elem?-inside xs i (omega arith)

  -- The range always contains the count, so the search ends at it.
  bin_search-eq :
      (fuel : ℕ) (edges : List F) (v : F) (lo hi : ℕ)
      → Ascending fl edges
      → lo ≤ count_at_most fl edges v
      → count_at_most fl edges v ≤ hi
      → hi ≤ length edges
      → hi - lo ≤ fuel
      → bin_search fl fuel edges v lo hi ≡ ok (count_at_most fl edges v)
  unfolding bin_search
  bin_search-eq zero edges v lo hi asc a b c d = ground arith
  bin_search-eq (suc fuel) edges v lo hi asc a b c d = elim (Bool-cases (ltb lo hi)) [
    | inr ended ↦ rw (ended, bin_search) (ap ok (ground arith))
    | inl more ↦
        let mid = (lo + hi) / 2 in
        let (e, g) = get_elem?-inside edges mid (ground arith) in
        elim (Bool-cases (le e v)) [
          | inl l ↦
              rw (more, g, l, bin_search)
                (bin_search-eq fuel edges v (mid + 1) hi asc
                  (omega (arith, count_above edges v mid e asc g l)) b c (ground arith))
          | inr l ↦
              rw (more, g, l, bin_search)
                (bin_search-eq fuel edges v lo mid asc a (count_below edges v mid e asc g l)
                  (ground arith) (ground arith))
        ]
  ]

  -- On ascending edges the binary search neither panics nor runs out of rounds, and it finds the bin
  -- of the last edge that is at most the value, or bin 0 for a value below every edge.
  pub bin_index-eq :
      (edges : List F) (v : F) → Ascending fl edges → bin_index fl edges v ≡ ok (bin_of fl edges v)
  unfolding bin_index bin_of
  bin_index-eq edges v asc = rw (
      bin_search-eq (length edges) edges v 0 (length edges) asc (omega arith)
        (count_at_most-le fl edges v) (omega arith) (omega arith))
