-- ===== src/Protocol/Handshake/Binding.antt =====
-- A session and an address have one cookie, and a cookie that is good for another session or address
-- exhibits a collision of the truncated MAC.
use qoe_test_harness.Prelude.{
  ℕ, ◌≢◌, ◌≡◌, refl, sym, ap, subst, ◌∙◌, ◌↔◌, ◌⊎◌, inl, inr, true, List, [], ◌∷◌, length,
  replicate, take, drop, arith, Bool-cases,
}
use qoe_test_harness.Protocol.Bytes.{IsU64, be_value}
use qoe_test_harness.Protocol.Bytes.Numbers.{be_value-be}
use qoe_test_harness.Protocol.Bytes.Writes.{length-overlay}
use qoe_test_harness.Protocol.Handshake.{
  cookie_size, copy_array, bytes_eq, cookie_message, make_cookie, verify_cookie,
}

bytes_eq→eq : (xs ys : List ℕ) → bytes_eq xs ys ≡ true → xs ≡ ys
bytes_eq→eq [] [] e = refl
bytes_eq→eq [] (y ∷ ys) e = cc
bytes_eq→eq (x ∷ xs) [] e = cc
bytes_eq→eq (x ∷ xs) (y ∷ ys) e = ground (arith, bytes_eq→eq xs ys)

bytes_eq_refl : (xs : List ℕ) → bytes_eq xs xs ≡ true
bytes_eq_refl [] = refl
bytes_eq_refl (x ∷ xs) = ground (arith, bytes_eq_refl xs)

pub bytes_eq_iff : (xs ys : List ℕ) → (bytes_eq xs ys ≡ true) ↔ (xs ≡ ys)
bytes_eq_iff xs ys =
    (bytes_eq→eq xs ys, λ e. subst (λ z. bytes_eq xs z ≡ true) e (bytes_eq_refl xs))

cookie_message-injective :
    (s t : ℕ) (a b : List ℕ)
    → IsU64 s
    → IsU64 t
    → cookie_message s a ≡ cookie_message t b
    → (s ≡ t) × (a ≡ b)
cookie_message-injective s t a b hs ht e = (
  sym (be_value-be 8 s hs) ∙ ap (λ m. be_value 0 (take 8 m)) e ∙ be_value-be 8 t ht,
  ap (drop 8) e,
)

module _ (hmac : List ℕ → List ℕ → List ℕ) (secret : List ℕ) where
  pub length-make_cookie :
      (session : ℕ) (addr : List ℕ) → length (make_cookie hmac secret session addr) ≡ cookie_size
  unfolding make_cookie
  length-make_cookie session addr =
      length-overlay (replicate cookie_size 0) (hmac secret (cookie_message session addr))

  -- For each session and address `verify_cookie` accepts the cookie that `make_cookie` hands out and
  -- no other bytes.
  pub verify_cookie_iff :
      (session : ℕ) (addr got : List ℕ)
      → (verify_cookie hmac secret session addr got ≡ true)
        ↔ (got ≡ make_cookie hmac secret session addr)
  unfolding verify_cookie
  verify_cookie_iff session addr got = (accepted, accepts)
    where
      accepted :
          verify_cookie hmac secret session addr got ≡ true
          → got ≡ make_cookie hmac secret session addr
      accepted e = sym ((bytes_eq_iff (make_cookie hmac secret session addr) got).0 (ground arith))

      accepts :
          got ≡ make_cookie hmac secret session addr
          → verify_cookie hmac secret session addr got ≡ true
      accepts e =
          let n : length got ≡ cookie_size = ap length e ∙ length-make_cookie session addr in
          ground (arith, (bytes_eq_iff (make_cookie hmac secret session addr) got).1 (sym e))

  -- Two different messages with one cookie.
  pub record Collision : Type 0 where
    pub message : List ℕ
    pub other : List ℕ
    pub different : message ≢ other
    pub same_cookie :
        copy_array cookie_size (hmac secret message) ≡ copy_array cookie_size (hmac secret other)

  -- A cookie that was handed out for one session and address passes for another only if the MAC,
  -- cut to the cookie's size, has a collision.
  pub verify_cookie-make_cookie :
      (s t : ℕ) (a b : List ℕ)
      → IsU64 s
      → IsU64 t
      → verify_cookie hmac secret t b (make_cookie hmac secret s a) ≡ true
      → ((s ≡ t) × (a ≡ b)) ⊎ Collision
  verify_cookie-make_cookie s t a b hs ht e =
      elim (Bool-cases (bytes_eq (cookie_message s a) (cookie_message t b))) [
        | inl same ↦ inl (
            cookie_message-injective s t a b hs ht
              ((bytes_eq_iff (cookie_message s a) (cookie_message t b)).0 same))
        | inr differ ↦ inr (record {
          message = cookie_message s a;
          other = cookie_message t b;
          different =
              λ q. cc (differ, (bytes_eq_iff (cookie_message s a) (cookie_message t b)).1 q);
          same_cookie =
              unfold make_cookie in (verify_cookie_iff t b (make_cookie hmac secret s a)).0 e;
        })
      ]
