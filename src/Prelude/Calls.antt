-- ===== src/Prelude/Calls.antt =====
-- Calls one after the other on a world: a call returns a value or an error, and the world afterwards.
use qoe_test_harness.Prelude.Results.{Result, ok, err, ok-injective}
use mathlib.Core.Path.{◌≡◌, refl, ap, subst, ◌∙◌}

abbrev pub M : Type 0 → Type 0 → Type 0 → Type 0
M E W A = W → Result E A × W

infixl 5 ◌>>=◌ ◌>>◌
unfoldable pub ◌>>=◌ : {E W A B : Type 0} → M E W A → (A → M E W B) → M E W B
◌>>=◌ m f w = let (r, w') = m w in elim r [ ok a ↦ f a w' | err e ↦ (err e, w') ]

unfoldable pub ◌>>◌ : {E W A B : Type 0} → M E W A → M E W B → M E W B
unfolding ◌>>=◌
m >> k = m >>= λ _. k

abbrev pub return : {E W A : Type 0} → A → M E W A
return a w = (ok a, w)

-- `m`, from the world `w`, returns `a` and leaves the world `w'`.
abbrev pub Runs : {E W A : Type 0} → M E W A → W → A → W → Type 0
Runs m w a w' = m w ≡ (ok a, w')

pub Runs-bind :
    {E W A B : Type 0} (m : M E W A) (f : A → M E W B) (w : W) (a : A) (w' : W) {b : B} {z : W}
    → Runs m w a w'
    → Runs (f a) w' b z
    → Runs (m >>= f) w b z
unfolding ◌>>=◌
Runs-bind {E} {W} {A} {B} m f w a w' p q = ap (λ r. finish r) p ∙ q
  where
    finish : Result E A × W → Result E B × W
    finish r = elim r.0 [ ok x ↦ f x r.1 | err e ↦ (err e, r.1) ]

pub Runs-then :
    {E W A B : Type 0} (m : M E W A) (k : M E W B) (w : W) (a : A) (w' : W) {b : B} {z : W}
    → Runs m w a w'
    → Runs k w' b z
    → Runs (m >> k) w b z
unfolding ◌>>◌
Runs-then m k w a w' p q = Runs-bind m (λ _. k) w a w' p q

-- What a run of two calls says of each.
pub Runs_inv :
    {E W A B : Type 0} (m : M E W A) (f : A → M E W B) (w : W) {b : B} {z : W}
    → Runs (m >>= f) w b z
    → (a : A) × (w' : W) × Runs m w a w' × Runs (f a) w' b z
unfolding ◌>>=◌
Runs_inv {E} {W} {A} {B} m f w {b} {z} p = split (m w) refl p
  where
    split :
        (r : Result E A × W)
        → m w ≡ r
        → (elim r.0 [ ok a ↦ f a r.1 | err e ↦ (err e, r.1) ]) ≡ (ok b, z)
        → (a : A) × (w' : W) × (m w ≡ (ok a, w')) × (f a w' ≡ (ok b, z))
    split (ok a, w') e q = (a, w', e, q)
    split (err x, w') e q = cc

pub Runs_inv_then :
    {E W A B : Type 0} (m : M E W A) (k : M E W B) (w : W) {b : B} {z : W}
    → Runs (m >> k) w b z
    → (a : A) × (w' : W) × Runs m w a w' × Runs k w' b z
unfolding ◌>>◌
Runs_inv_then m k w p = Runs_inv m (λ _. k) w p

-- Whatever a run of `m` returns has `Q`.
pub record Post {E W A : Type 0} (Q : A → Type 0) (m : M E W A) : Type 0 where
  pub holds : (w : W) (a : A) (w' : W) → Runs m w a w' → Q a

pub Post->>= :
    {E W A B : Type 0} {Q : B → Type 0} (m : M E W A) (f : A → M E W B)
    → ((a : A) (w w' : W) → Runs m w a w' → Post Q (f a))
    → Post Q (m >>= f)
Post->>= m f each = record {
  holds = λ w b z p.
      let (a, w', first, rest) = Runs_inv m f w p in (each a w w' first).holds w' b z rest;
}

pub Post->> :
    {E W A B : Type 0} {Q : B → Type 0} (m : M E W A) (k : M E W B) → Post Q k → Post Q (m >> k)
unfolding ◌>>◌
Post->> m k q = Post->>= m (λ _. k) (λ _ _ _ _. q)

pub Post-return :
    {E W A : Type 0} {Q : A → Type 0} (a : A) → Q a → Post {E = E} {W = W} Q (return a)
Post-return {E} {W} {A} {Q} a q = record {
  holds = λ w b w' p. subst Q (ok-injective a b (ap (λ r. r.0) p)) q;
}

-- From the world `w`, `m` returns a value, and this value and the world afterwards have `Q`.
pub record Ends {E W A : Type 0} (Q : A → W → Type 0) (m : M E W A) (w : W) : Type 0 where
  pub value : A
  pub after : W
  pub ends : Runs m w value after
  pub has : Q value after

pub Ends->>= :
    {E W A B : Type 0} {P : A → W → Type 0} {Q : B → W → Type 0} (m : M E W A) (f : A → M E W B)
    (w : W)
    → Ends P m w
    → ((a : A) (w' : W) → P a w' → Ends Q (f a) w')
    → Ends Q (m >>= f) w
Ends->>= m f w first next =
    let rest = next first.value first.after first.has in
    record {
      value = rest.value;
      after = rest.after;
      ends = Runs-bind m f w first.value first.after first.ends rest.ends;
      has = rest.has;
    }

-- The same when it is known what the first call returns.
pub Ends-after :
    {E W A B : Type 0} {Q : B → W → Type 0} (m : M E W A) (f : A → M E W B) (w : W) {a : A} {w' : W}
    → Runs m w a w'
    → Ends Q (f a) w'
    → Ends Q (m >>= f) w
Ends-after m f w {a} {w'} p rest = record {
  value = rest.value;
  after = rest.after;
  ends = Runs-bind m f w a w' p rest.ends;
  has = rest.has;
}

pub Ends-then :
    {E W A B : Type 0} {Q : B → W → Type 0} (m : M E W A) (k : M E W B) (w : W) {a : A} {w' : W}
    → Runs m w a w'
    → Ends Q k w'
    → Ends Q (m >> k) w
unfolding ◌>>◌
Ends-then m k w p rest = Ends-after m (λ _. k) w p rest

pub Ends-return :
    {E W A : Type 0} {Q : A → W → Type 0} (a : A) (w : W)
    → Q a w
    → Ends Q (return {E = E} {W = W} a) w
Ends-return a w q = record { value = a; after = w; ends = refl; has = q }
