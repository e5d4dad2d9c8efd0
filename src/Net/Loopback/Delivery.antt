-- ===== src/Net/Loopback/Delivery.antt =====
-- In which order the simulated path delivers echoes.
use qoe_test_harness.Prelude.{
  count, ℕ, suc, ◌≤◌, ◌≡◌, ◌⊎◌, inl, inr, refl, sym, ap, subst, ◌∙◌, Bool, true, List, [], ◌∷◌, ok,
  err, ltb, if◌then◌else◌, arith, Bool-cases,
}
use qoe_test_harness.Net.Conn.{Echo}
use qoe_test_harness.Net.Loopback.{Loopback, no_echo, insert_echo, sort_echoes, recv_echo}

-- No echo of the list arrives before `t`.
abbrev pub NoneBefore : ℕ → List Echo → Type 0
NoneBefore t [] = Unit {0}
NoneBefore t (x ∷ xs) = (t ≤ x.recv_at) × NoneBefore t xs

abbrev pub ByArrival : List Echo → Type 0
ByArrival [] = Unit {0}
ByArrival (x ∷ xs) = NoneBefore x.recv_at xs × ByArrival xs

NoneBefore-le : (s t : ℕ) (xs : List Echo) → s ≤ t → NoneBefore t xs → NoneBefore s xs
NoneBefore-le s t [] h w = tt
NoneBefore-le s t (x ∷ xs) h w = (omega (arith, w.0), NoneBefore-le s t xs h w.1)

insert_echo-NoneBefore :
    (t : ℕ) (e : Echo) (xs : List Echo)
    → t ≤ e.recv_at
    → NoneBefore t xs
    → NoneBefore t (insert_echo e xs)
insert_echo-NoneBefore t e [] h w = (h, tt)
insert_echo-NoneBefore t e (x ∷ xs) h w = elim (Bool-cases (ltb x.recv_at e.recv_at)) [
  | inl later ↦ rw later (w.0, insert_echo-NoneBefore t e xs h w.1)
  | inr front ↦ rw front (h, w)
]

insert_echo-ByArrival : (e : Echo) (xs : List Echo) → ByArrival xs → ByArrival (insert_echo e xs)
insert_echo-ByArrival e [] w = (tt, tt)
insert_echo-ByArrival e (x ∷ xs) w = elim (Bool-cases (ltb x.recv_at e.recv_at)) [
  | inl later ↦
      rw later
        (insert_echo-NoneBefore x.recv_at e xs (ground arith) w.0, insert_echo-ByArrival e xs w.1)
  | inr front ↦
      rw front ((ground arith, NoneBefore-le e.recv_at x.recv_at xs (ground arith) w.0), w)
]

sort_echoes-ByArrival : (xs : List Echo) → ByArrival (sort_echoes xs)
sort_echoes-ByArrival [] = tt
sort_echoes-ByArrival (x ∷ xs) = insert_echo-ByArrival x (sort_echoes xs) (sort_echoes-ByArrival xs)

count-insert_echo :
    (test : Echo → Bool) (e : Echo) (xs : List Echo)
    → count test (insert_echo e xs) ≡ count test (e ∷ xs)
count-insert_echo test e [] = refl
count-insert_echo test e (x ∷ xs) = ground (arith, count-insert_echo test e xs)

count-sort_echoes :
    (test : Echo → Bool) (xs : List Echo) → count test (sort_echoes xs) ≡ count test xs
count-sort_echoes test [] = refl
count-sort_echoes test (x ∷ xs) =
    count-insert_echo test x (sort_echoes xs)
    ∙ ap (λ n. if test x then suc n else n) (count-sort_echoes test xs)

none_left : (xs : List Echo) → count (λ x. true) xs ≡ 0 → xs ≡ []
none_left [] e = refl
none_left (x ∷ xs) e = absurd (omega (arith, e))

-- A receive delivers an echo exactly when one is pending; no echo that is left arrives before it, the
-- clock is at its arrival, and it and those left are the echoes that were pending: any test holds as
-- often in the ones as in the others.
pub recv_echo_cases :
    (l : Loopback)
    → ((l.pending ≡ []) × (recv_echo l ≡ err no_echo))
      ⊎ ((e : Echo) × (l' : Loopback) × (recv_echo l ≡ ok (e, l'))
          × NoneBefore e.recv_at l'.pending
          × (l'.clock ≡ e.recv_at)
          × ((test : Echo → Bool) → count test (e ∷ l'.pending) ≡ count test l.pending))
unfolding recv_echo
recv_echo_cases l = by_front (sort_echoes l.pending) refl
  where
    by_front :
        (out : List Echo)
        → sort_echoes l.pending ≡ out
        → ((l.pending ≡ []) × (recv_echo l ≡ err no_echo))
          ⊎ ((e : Echo) × (l' : Loopback) × (recv_echo l ≡ ok (e, l'))
              × NoneBefore e.recv_at l'.pending
              × (l'.clock ≡ e.recv_at)
              × ((test : Echo → Bool) → count test (e ∷ l'.pending) ≡ count test l.pending))
    by_front [] p = inl (
      none_left l.pending
          (sym (count-sort_echoes (λ x. true) l.pending) ∙ ap (count (λ x. true)) p),
      rw (p, recv_echo) refl,
    )
    by_front (e ∷ rest) p = inr (
      e,
      record l { clock = e.recv_at; pending = rest },
      rw (p, recv_echo) refl,
      (subst ByArrival p (sort_echoes-ByArrival l.pending)).0,
      refl,
      (λ test. sym (ap (count test) p) ∙ count-sort_echoes test l.pending),
    )
