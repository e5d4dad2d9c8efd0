-- ===== src/Storage/Listing.antt =====
-- What `list` returns.
use Prim.Native.String.{String}
use qoe_test_harness.Prelude.{
  count, count-take, Bool, ℕ, zero, suc, ◌≤◌, ◌≡◌, ◌⊎◌, inl, inr, refl, sym, subst, if-both,
  if-each, ap, length-take, true, false, List, [], ◌∷◌, length, take, ltb, arith, Bool-cases,
}
use qoe_test_harness.Prelude.Texts.{str_eq}
use qoe_test_harness.Prelude.Int.{lt_int}
use qoe_test_harness.Prelude.Floats.{Float64}
use qoe_test_harness.Report.{RunReport}
use qoe_test_harness.Storage.{default_limit, Filter, limit, matches, Memory, select, list}

pub data Within {ℓ} {A : Type ℓ} : A → List A → Type ℓ where
  here : {x : A} {xs : List A} → Within x (x ∷ xs)
  there : {x y : A} {xs : List A} → Within x xs → Within x (y ∷ xs)

pub Within-cases {ℓ} :
    {A : Type ℓ} (x y : A) (ys : List A) → Within x (y ∷ ys) → (x ≡ y) ⊎ Within x ys
Within-cases x y ys here = inl refl
Within-cases x y ys (there w) = inr w

module _ (fl : Float64) where
  abbrev pub has_id : String → RunReport fl → Bool
  has_id id r = str_eq r.meta.run_id id

  -- `y` did not start after `x`.
  abbrev pub NotNewer : RunReport fl → RunReport fl → Type 0
  NotNewer x y = lt_int x.meta.started_at_unix_ms y.meta.started_at_unix_ms ≡ false

  abbrev pub NewestFirst : List (RunReport fl) → Type 0
  NewestFirst [] = Unit {0}
  NewestFirst (x ∷ xs) = ((y : RunReport fl) → Within y xs → NotNewer x y) × NewestFirst xs

  -- What sorting a slice does: the same elements, each as often, in order.
  pub record Sorts (xs ys : List (RunReport fl)) : Type 0 where
    pub same_elements : (r : RunReport fl) → Within r ys → Within r xs
    pub all_elements : (r : RunReport fl) → Within r xs → Within r ys
    pub same_counts : (test : RunReport fl → Bool) → count test ys ≡ count test xs
    pub in_order : NewestFirst ys

  select_sound :
      (f : Filter) (runs : List (String × RunReport fl)) (r : RunReport fl)
      → Within r (select fl f runs)
      → (matches fl f r ≡ true) × ((id : String) × Within (id, r) runs)
  unfolding select
  select_sound f [] r w = elim w [ ]
  select_sound f ((id, x) ∷ runs) r w = elim (Bool-cases (matches fl f x)) [
    | inl yes_x ↦ elim (Within-cases r x (select fl f runs) (rw yes_x at w)) [
      | inl same ↦ (
        subst (λ z. matches fl f z ≡ true) (sym same) yes_x,
        (id, subst (λ z. Within (id, z) ((id, x) ∷ runs)) (sym same) here),
      )
      | inr later ↦ let (m, (j, v)) = select_sound f runs r later in (m, (j, there v))
    ]
    | inr no_x ↦ let (m, (j, v)) = select_sound f runs r (rw no_x at w) in (m, (j, there v))
  ]

  select_complete :
      (f : Filter) (runs : List (String × RunReport fl)) (id : String) (r : RunReport fl)
      → Within (id, r) runs
      → matches fl f r ≡ true
      → Within r (select fl f runs)
  unfolding select
  select_complete f [] id' r w e = elim w [ ]
  select_complete f ((id, x) ∷ runs) id' r here e = rw e here
  select_complete f ((id, x) ∷ runs) id' r (there w) e =
      if-both (Within r) (matches fl f x) (there (select_complete f runs id' r w e))
        (select_complete f runs id' r w e)

  take-Within :
      (n : ℕ) (xs : List (RunReport fl)) (r : RunReport fl) → Within r (take n xs) → Within r xs
  take-Within zero xs r w = elim w [ ]
  take-Within (suc n) [] r w = elim w [ ]
  take-Within (suc n) (x ∷ xs) r here = here
  take-Within (suc n) (x ∷ xs) r (there w) = there (take-Within n xs r w)

  -- What is cut off, of a full list, is not newer than what is kept.
  take-rest :
      (n : ℕ) (xs : List (RunReport fl)) (r : RunReport fl)
      → NewestFirst xs
      → Within r xs
      → Within r (take n xs)
        ⊎ ((length (take n xs) ≡ n) × ((x : RunReport fl) → Within x (take n xs) → NotNewer x r))
  take-rest zero xs r s w = inr (refl, (λ x v. elim v [ ]))
  take-rest (suc n) [] r s w = elim w [ ]
  take-rest (suc n) (x ∷ xs) r s here = inl here
  take-rest (suc n) (x ∷ xs) r s (there w) = elim (take-rest n xs r s.1 w) [
    | inl kept ↦ inl (there kept)
    | inr (full, newer) ↦ inr (
      omega arith,
      (λ y v. elim (Within-cases y x (take n xs) v) [
        | inl same ↦ subst (λ z. NotNewer z r) (sym same) (s.0 r w)
        | inr later ↦ newer y later
      ]),
    )
  ]

  take-NewestFirst : (n : ℕ) (xs : List (RunReport fl)) → NewestFirst xs → NewestFirst (take n xs)
  take-NewestFirst zero xs s = tt
  take-NewestFirst (suc n) [] s = tt
  take-NewestFirst (suc n) (x ∷ xs) s =
      ((λ y w. s.0 y (take-Within n xs y w)), take-NewestFirst n xs s.1)

  take-all : (n : ℕ) (xs : List (RunReport fl)) → length xs ≤ n → take n xs ≡ xs
  take-all zero [] h = refl
  take-all (suc n) [] h = refl
  take-all zero (x ∷ xs) h = absurd (omega arith)
  take-all (suc n) (x ∷ xs) h = ap (λ l. x ∷ l) (take-all n xs (omega arith))

  list-eq :
      (newest_first : List (RunReport fl) → List (RunReport fl)) (m : Memory fl) (f : Filter)
      → list fl newest_first m f ≡ take (limit f) (newest_first (select fl f m.runs))
  unfolding list
  list-eq newest_first m f =
      let out = newest_first (select fl f m.runs) in
      if-each (λ l. l ≡ take (limit f) out) (ltb (limit f) (length out)) (λ long. refl)
        (λ short. sym (take-all (limit f) out (ground arith)))

  -- When the sort sorts the matching runs, the list has matching runs of the store only, newest first
  -- no more than the limit, which is at most 1000, and none more often than the store has it; and a
  -- matching run is left out only of a full list, and did not start after any that is in it.
  pub list_lem :
      (newest_first : List (RunReport fl) → List (RunReport fl)) (m : Memory fl) (f : Filter)
      → Sorts (select fl f m.runs) (newest_first (select fl f m.runs))
      → ((r : RunReport fl)
          → Within r (list fl newest_first m f)
          → (matches fl f r ≡ true) × ((id : String) × Within (id, r) m.runs))
        × NewestFirst (list fl newest_first m f)
        × ((test : RunReport fl → Bool)
            → count test (list fl newest_first m f) ≤ count test (select fl f m.runs))
        × (length (list fl newest_first m f) ≤ limit f)
        × (limit f ≤ default_limit)
        × ((id : String) (r : RunReport fl)
            → Within (id, r) m.runs
            → matches fl f r ≡ true
            → Within r (list fl newest_first m f)
              ⊎ ((length (list fl newest_first m f) ≡ limit f)
                  × ((x : RunReport fl) → Within x (list fl newest_first m f) → NotNewer x r)))
  unfolding limit
  list_lem newest_first m f sorts =
      let out = newest_first (select fl f m.runs) in
      rw (list-eq newest_first m f) (
        (λ r w. select_sound f m.runs r (sorts.same_elements r (take-Within (limit f) out r w))),
        take-NewestFirst (limit f) out sorts.in_order,
        (λ test. omega (arith, count-take test (limit f) out, sorts.same_counts test)),
        omega (arith, length-take (limit f) out),
        ground arith,
        (λ id r w e.
            take-rest (limit f) out r sorts.in_order
              (sorts.all_elements r (select_complete f m.runs id r w e))),
      )
