-- ===== src/Prelude/Results.antt =====
-- Go's (value, error) pairs as values: a call returns a value or one error, never both.
use mathlib.Core.Path.{◌≡◌, refl}
use qoe_test_harness.Prelude.Tests.{if◌then◌else◌}
use mathlib.Core.Bool.{Bool, true, false}
use mathlib.Core.Logic.{◌⊎◌, inl, inr}

pub data Result {ℓ κ} (E : Type κ) (A : Type ℓ) : Type (ℓ ⊔ κ) where
  ok : A → Result E A
  err : E → Result E A

infixl 5 ◌>>=◌ ◌>>◌
abbrev pub ◌>>=◌ {ℓ κ μ} :
    {E : Type μ} {A : Type ℓ} {B : Type κ} → Result E A → (A → Result E B) → Result E B
ok a >>= f = f a
err e >>= f = err e

abbrev pub ◌>>◌ {ℓ κ μ} :
    {E : Type μ} {A : Type ℓ} {B : Type κ} → Result E A → Result E B → Result E B
m >> k = m >>= λ _. k

pub Result-cases {ℓ κ} :
    {E : Type κ} {A : Type ℓ} (r : Result E A) → ((a : A) × (r ≡ ok a)) ⊎ ((e : E) × (r ≡ err e))
Result-cases (ok a) = inl (a, refl)
Result-cases (err e) = inr (e, refl)

-- What a success of "run `m`, test, return" says.
pub guarded-ok {ℓ κ μ} :
    {E : Type μ} {A : Type ℓ} {B : Type κ} (m : Result E A) (bad : Bool) (e : E) (g : A → B) {b : B}
    → (m >>= λ a. if bad then err e else ok (g a)) ≡ ok b
    → (a : A) × (m ≡ ok a) × (bad ≡ false) × (b ≡ g a)
guarded-ok (ok a) false e g h = (a, refl, refl, cc)
guarded-ok (ok a) true e g h = cc
guarded-ok (err x) bad e g h = cc

-- What a success of "run `m`, then `next`" says.
pub >>=-eq-ok {ℓ κ μ} :
    {E : Type μ} {A : Type ℓ} {B : Type κ} (m : Result E A) (next : A → Result E B) {z : B}
    → (m >>= next) ≡ ok z
    → (x : A) × (m ≡ ok x) × (next x ≡ ok z)
>>=-eq-ok (err e) next p = cc
>>=-eq-ok (ok x) next p = (x, refl, p)

pub ok-injective {ℓ κ} :
    {E : Type κ} {A : Type ℓ} (a b : A) → ◌≡◌ {A = Result E A} (ok a) (ok b) → a ≡ b
ok-injective a b e = cc
