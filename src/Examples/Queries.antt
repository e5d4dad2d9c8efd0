-- ===== src/Examples/Queries.antt =====
-- The 32 queries of List, told apart by their texts.
use Prim.Native.String.{String}
use qoe_test_harness.Prelude.{
  Bool, ◌+◌, ◌++◌, ℕ, ◌≡◌, refl, true, false, Option, some, none, List, [], ◌∷◌, length, ◌==◌,
  if◌then◌else◌,
}
use qoe_test_harness.Prelude.Texts.{str_eq}
use qoe_test_harness.Storage.Postgres.{Arg, text}
use qoe_test_harness.Storage.Postgres.Tests.{
  same, of_isp, of_region, of_device_class, of_verdict, since, if_some, placed, Test, select_text,
}

abbrev pub digit : ℕ → String
digit n =
    if n == 1
    then "1"
    else if n == 2
    then "2"
    else if n == 3
    then "3"
    else if n == 4
    then "4"
    else if n == 5
    then "5"
    else "6"

-- The tests of a filter that sets some of its fields.
abbrev pub tests_set : Bool → Bool → Bool → Bool → Bool → List Arg → List (Test × Arg)
tests_set b c d e g (i ∷ r ∷ k ∷ v ∷ t ∷ []) =
    if_some b (same of_isp) i
    ++ (if_some c (same of_region) r
        ++ (if_some d (same of_device_class) k
            ++ (if_some e (same of_verdict) v ++ if_some g since t)))
tests_set b c d e g args = []

-- Both values of a Boolean.
abbrev both {ℓ} : {A : Type ℓ} → (Bool → List A) → List A
both f = f true ++ f false

abbrev no_args : List Arg
no_args = text "" ∷ text "" ∷ text "" ∷ text "" ∷ text "" ∷ []

abbrev shapes : List (List (Test × ℕ))
shapes = both (λ b.
    both (λ c. both (λ d. both (λ e. both (λ g. placed 1 (tests_set b c d e g no_args) ∷ [])))))

-- The first shape whose query has this text.
abbrev parse_in : List (List (Test × ℕ)) → String → Option (List (Test × ℕ))
parse_in [] q = none
parse_in (ts ∷ more) q =
    let rest = parse_in more q in
    if str_eq (select_text digit ts (length ts + 1)) q then some ts else rest

abbrev pub parsed : String → Option (List (Test × ℕ))
parsed q = parse_in shapes q

pub parsed-select_text :
    (b c d e g : Bool) (i r k v t : Arg)
    → parsed (
        select_text digit
          (placed 1 (tests_set b c d e g (i ∷ r ∷ k ∷ v ∷ t ∷ [])))
          (length (tests_set b c d e g (i ∷ r ∷ k ∷ v ∷ t ∷ [])) + 1))
      ≡ some (placed 1 (tests_set b c d e g (i ∷ r ∷ k ∷ v ∷ t ∷ [])))
unfolding select_text
parsed-select_text true true true true true i r k v t = refl
parsed-select_text true true true true false i r k v t = refl
parsed-select_text true true true false true i r k v t = refl
parsed-select_text true true true false false i r k v t = refl
parsed-select_text true true false true true i r k v t = refl
parsed-select_text true true false true false i r k v t = refl
parsed-select_text true true false false true i r k v t = refl
parsed-select_text true true false false false i r k v t = refl
parsed-select_text true false true true true i r k v t = refl
parsed-select_text true false true true false i r k v t = refl
parsed-select_text true false true false true i r k v t = refl
parsed-select_text true false true false false i r k v t = refl
parsed-select_text true false false true true i r k v t = refl
parsed-select_text true false false true false i r k v t = refl
parsed-select_text true false false false true i r k v t = refl
parsed-select_text true false false false false i r k v t = refl
parsed-select_text false true true true true i r k v t = refl
parsed-select_text false true true true false i r k v t = refl
parsed-select_text false true true false true i r k v t = refl
parsed-select_text false true true false false i r k v t = refl
parsed-select_text false true false true true i r k v t = refl
parsed-select_text false true false true false i r k v t = refl
parsed-select_text false true false false true i r k v t = refl
parsed-select_text false true false false false i r k v t = refl
parsed-select_text false false true true true i r k v t = refl
parsed-select_text false false true true false i r k v t = refl
parsed-select_text false false true false true i r k v t = refl
parsed-select_text false false true false false i r k v t = refl
parsed-select_text false false false true true i r k v t = refl
parsed-select_text false false false true false i r k v t = refl
parsed-select_text false false false false true i r k v t = refl
parsed-select_text false false false false false i r k v t = refl
