-- ===== src/Compute/Histogram/Bags.antt =====
-- A histogram as the bag of the samples that it has counted, whatever their order.
use mathlib.Core.Logic.{∥∥₁_elim}
use mathlib.Core.List.Perm
use mathlib.Core.List.{Perm, Permᴰ}
use mathlib.Core.Quot
use mathlib.Core.Quot.{Quot, Quot-set}
use native.Mathlib.Nat.{ℕ_set}
use qoe_test_harness.Prelude.{
  ℕ, suc, ◌+◌, ◌≡◌, refl, ap, ◌∙◌, List, [], ◌∷◌, ◌++◌, length, ◌==◌, if◌then◌else◌, arith,
}
use qoe_test_harness.Prelude.Floats.{Float64}
use qoe_test_harness.Compute.Histogram.Search.{bin_of}
use qoe_test_harness.Compute.Histogram.Counts.{occurrences}

-- Samples up to order.
abbrev pub Bag : Type 0 → Type 0
Bag F = Quot (Perm {A = F})

module _ {F : Type 0} where
  pub Permᴰ-length : {xs ys : List F} → Permᴰ xs ys → length xs ≡ length ys
  Permᴰ-length Permᴰ.nil = refl
  Permᴰ-length (Permᴰ.cons e p) = ap suc (Permᴰ-length p)
  Permᴰ-length (Permᴰ.swap e f) = refl
  Permᴰ-length (Permᴰ.trans p q) = Permᴰ-length p ∙ Permᴰ-length q

  abbrev pub empty : Bag F
  empty = Quot.mk []

  unfoldable pub put : F → Bag F → Bag F
  put v = Quot.lift Quot-set (λ xs. Quot.mk (v ∷ xs)) λ xs ys p. Quot.sound (Perm.cons v p)

  pub append_to : List F → Bag F → Bag F
  append_to xs =
      Quot.lift Quot-set (λ ys. Quot.mk (xs ++ ys)) λ ys zs p. Quot.sound (Perm.append_left xs p)

  pub append_to-perm : (xs ys : List F) → Perm xs ys → (b : Bag F) → append_to xs b ≡ append_to ys b
  unfolding append_to
  append_to-perm xs ys p = Quot.ind (λ b. Quot-set _ _) λ zs. Quot.sound (Perm.append_right zs p)

  -- All samples of two bags.
  unfoldable pub union : Bag F → Bag F → Bag F
  union a b = Quot.lift Quot-set (λ xs. append_to xs b) (λ xs ys p. append_to-perm xs ys p b) a

  unfoldable pub size : Bag F → ℕ
  size = Quot.lift ℕ_set length λ xs ys p. ∥∥₁_elim p (ℕ_set _ _) Permᴰ-length

module _ (fl : Float64) where
  open fl use {F}

  pub Permᴰ-occurrences :
      (edges : List F) (i : ℕ) {xs ys : List F}
      → Permᴰ xs ys
      → occurrences fl edges i xs ≡ occurrences fl edges i ys
  unfolding occurrences
  Permᴰ-occurrences edges i Permᴰ.nil = refl
  Permᴰ-occurrences edges i (Permᴰ.cons {a} {b} {l₁} {l₂} e p) =
      ground (arith, ap (bin_of fl edges) e, Permᴰ-occurrences edges i p)
  Permᴰ-occurrences edges i (Permᴰ.swap {a} {b} {a'} {b'} {l} e f) =
      ground (arith, ap (bin_of fl edges) e, ap (bin_of fl edges) f)
  Permᴰ-occurrences edges i (Permᴰ.trans p q) =
      Permᴰ-occurrences edges i p ∙ Permᴰ-occurrences edges i q

  -- How many samples of a bag fall into bin `i`.
  unfoldable pub in_bin : List F → ℕ → Bag F → ℕ
  in_bin edges i =
      Quot.lift ℕ_set (occurrences fl edges i)
        λ xs ys p. ∥∥₁_elim p (ℕ_set _ _) (Permᴰ-occurrences edges i)

  pub in_bin-put :
      (edges : List F) (i : ℕ) (v : F) (b : Bag F)
      → in_bin edges i (put v b)
        ≡ (if bin_of fl edges v == i then suc (in_bin edges i b) else in_bin edges i b)
  unfolding in_bin put occurrences
  in_bin-put edges i v = Quot.ind (λ b. ℕ_set _ _) λ xs. refl

  occurrences-append :
      (edges : List F) (i : ℕ) (xs ys : List F)
      → occurrences fl edges i (xs ++ ys) ≡ occurrences fl edges i xs + occurrences fl edges i ys
  unfolding occurrences
  occurrences-append edges i [] ys = omega arith
  occurrences-append edges i (x ∷ xs) ys = ground (arith, occurrences-append edges i xs ys)

  pub in_bin-union :
      (edges : List F) (i : ℕ) (a b : Bag F)
      → in_bin edges i (union a b) ≡ in_bin edges i a + in_bin edges i b
  unfolding in_bin union append_to occurrences
  in_bin-union edges i a b =
      Quot.ind {β = λ a. in_bin edges i (union a b) ≡ in_bin edges i a + in_bin edges i b}
        (λ a. ℕ_set _ _)
        (λ xs.
          Quot.ind
            {β = λ b.
              in_bin edges i (union (Quot.mk xs) b) ≡ occurrences fl edges i xs + in_bin edges i b}
            (λ b. ℕ_set _ _) (λ ys. occurrences-append edges i xs ys) b)
        a
