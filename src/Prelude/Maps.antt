-- ===== src/Prelude/Maps.antt =====
-- Go maps as association lists, one entry for a key. Each law says what a lookup finds afterwards.
use qoe_test_harness.Prelude.{
  ℕ, ◌≡◌, ◌≢◌, ◌⊎◌, sym, ◌↔◌, refl, Bool, true, Option, none, some, List, [], ◌∷◌, arith,
  if◌then◌else◌, ◌==◌ as nat_eq, ==_iff, Bool-cases, inl, inr,
}
use Prim.Native.String.{String}
use qoe_test_harness.Prelude.Texts.{str_eq, str_eq_iff}

-- Keys with a test for equality.
pub record Eq {ℓ} (K : Type ℓ) : Type ℓ where
  pub beq : K → K → Bool
  pub beq_iff : (a b : K) → (beq a b ≡ true) ↔ (a ≡ b)

instance abbrev pub nat_key : Eq ℕ
nat_key = record { beq = nat_eq; beq_iff = ==_iff }

instance abbrev pub text_key : Eq String
text_key = record { beq = str_eq; beq_iff = str_eq_iff }

module _ {ℓ} {K : Type ℓ} ⦃e : Eq K⦄ where
  pub beq_refl : (k : K) → e.beq k k ≡ true
  beq_refl k = (e.beq_iff k k).1 refl

module _ {ℓ κ} {K : Type ℓ} {V : Type κ} ⦃e : Eq K⦄ where
  -- `m[k]`
  unfoldable pub lookup : K → List (K × V) → Option V
  lookup k [] = none
  lookup k ((j, v) ∷ m) = if e.beq j k then some v else lookup k m

  -- `m[k] = v`
  unfoldable pub insert : K → V → List (K × V) → List (K × V)
  insert k v [] = (k, v) ∷ []
  insert k v ((j, w) ∷ m) = if e.beq j k then (k, v) ∷ m else (j, w) ∷ insert k v m

  -- `delete(m, k)`
  unfoldable pub delete : K → List (K × V) → List (K × V)
  delete k [] = []
  delete k ((j, v) ∷ m) = let rest = delete k m in if e.beq j k then rest else (j, v) ∷ rest

  -- A write through a pointer that the map holds.
  unfoldable pub adjust : K → (V → V) → List (K × V) → List (K × V)
  adjust k f [] = []
  adjust k f ((j, v) ∷ m) = (j, if e.beq j k then f v else v) ∷ adjust k f m

  pub lookup-insert :
      (k j : K) (v : V) (m : List (K × V))
      → lookup j (insert k v m) ≡ (if e.beq k j then some v else lookup j m)
  unfolding lookup insert
  lookup-insert k j v [] = refl
  lookup-insert k j v ((i, w) ∷ m) =
      ground (arith, e.beq_iff k j, e.beq_iff i k, e.beq_iff i j, lookup-insert k j v m)

  pub lookup-delete :
      (k j : K) (m : List (K × V))
      → lookup j (delete k m) ≡ (if e.beq k j then none else lookup j m)
  unfolding lookup delete
  lookup-delete k j [] = ground arith
  lookup-delete k j ((i, w) ∷ m) =
      ground (arith, e.beq_iff k j, e.beq_iff i k, e.beq_iff i j, lookup-delete k j m)

  pub lookup-adjust :
      (k j : K) (f : V → V) (v : V) (m : List (K × V))
      → lookup j (adjust k f m) ≡ some v
      → (w : V) × (lookup j m ≡ some w) × (v ≡ (if e.beq j k then f w else w))
  unfolding lookup adjust
  lookup-adjust k j f v [] h = cc
  lookup-adjust k j f v ((i, w) ∷ m) h = elim (Bool-cases (e.beq i j)) [
    | inl same ↦ (w, rw same refl, ground (arith, e.beq_iff i j, e.beq_iff i k, e.beq_iff j k))
    | inr other ↦ let (u, p, q) = lookup-adjust k j f v m (rw other at h) in (u, rw other p, q)
  ]

  pub lookup-adjust-some :
      (k j : K) (f : V → V) (w : V) (m : List (K × V))
      → lookup j m ≡ some w
      → lookup j (adjust k f m) ≡ some (if e.beq j k then f w else w)
  unfolding lookup adjust
  lookup-adjust-some k j f w [] h = cc
  lookup-adjust-some k j f w ((i, u) ∷ m) h =
      ground (arith, e.beq_iff i j, e.beq_iff i k, e.beq_iff j k, lookup-adjust-some k j f w m)

  pub lookup-delete_inv :
      (k j : K) (m : List (K × V)) (v : V)
      → lookup j (delete k m) ≡ some v
      → (k ≢ j) × (lookup j m ≡ some v)
  lookup-delete_inv k j m v h =
      let e' = lookup-delete k j m in ((λ p. ground (arith, e.beq_iff k j, e')), ground (arith, e'))

  pub lookup-delete_other :
      (k j : K) (m : List (K × V)) → k ≢ j → lookup j (delete k m) ≡ lookup j m
  lookup-delete_other k j m h = ground (arith, lookup-delete k j m, e.beq_iff k j)

  pub lookup-insert_same : (k : K) (v : V) (m : List (K × V)) → lookup k (insert k v m) ≡ some v
  lookup-insert_same k v m = ground (arith, lookup-insert k k v m, e.beq_iff k k)

  pub lookup-insert_other :
      (k j : K) (v : V) (m : List (K × V)) → k ≢ j → lookup j (insert k v m) ≡ lookup j m
  lookup-insert_other k j v m h = ground (arith, lookup-insert k j v m, e.beq_iff k j)

  pub lookup-adjust_inv :
      (k j : K) (f : V → V) (v : V) (m : List (K × V))
      → lookup j (adjust k f m) ≡ some v
      → ((k ≡ j) × (w : V) × (lookup j m ≡ some w) × (v ≡ f w)) ⊎ ((k ≢ j) × (lookup j m ≡ some v))
  lookup-adjust_inv k j f v m h =
      let (w, p, q) = lookup-adjust k j f v m h in
      elim (Bool-cases (e.beq j k)) [
        | inl same ↦ inl (sym ((e.beq_iff j k).0 same), w, p, rw same at q)
        | inr other ↦ inr ((λ s. ground (arith, e.beq_iff j k)), cc (p, rw other at q))
      ]

  pub lookup-adjust_other :
      (k j : K) (f : V → V) (m : List (K × V)) (v : V)
      → k ≢ j
      → lookup j m ≡ some v
      → lookup j (adjust k f m) ≡ some v
  lookup-adjust_other k j f m v h p = ground (arith, lookup-adjust-some k j f v m p, e.beq_iff j k)

-- Two keys are equal or not.
module _ {ℓ} {K : Type ℓ} ⦃e : Eq K⦄ where
  pub key-cases : (a b : K) → (a ≡ b) ⊎ (a ≢ b)
  key-cases a b = elim (Bool-cases (e.beq a b)) [
    | inl same ↦ inl ((e.beq_iff a b).0 same)
    | inr other ↦ inr (λ p. ground (arith, e.beq_iff a b))
  ]
