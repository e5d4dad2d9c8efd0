-- ===== src/Protocol/Handshake.antt =====
-- core/protocol/handshake.go: the cookie that proves that a client receives at its source address.
-- HMAC-SHA-256 is a parameter: a function of the key and of the bytes written into it.
pub mod Binding
use qoe_test_harness.Prelude.{
  ℕ, zero, suc, Bool, true, false, ◌&&◌, List, [], ◌∷◌, ◌++◌, length, replicate, ◌==◌, not,
  if◌then◌else◌,
}
use qoe_test_harness.Protocol.Bytes.{be, overlay}

abbrev pub cookie_size : ℕ
cookie_size = 16

-- `copy(out[:], bs)` into a fresh array of `n` bytes.
abbrev pub copy_array : ℕ → List ℕ → List ℕ
copy_array n bs = overlay (replicate n 0) bs

-- subtle.ConstantTimeCompare(a, b) == 1.
abbrev pub bytes_eq : List ℕ → List ℕ → Bool
bytes_eq [] [] = true
bytes_eq [] (b ∷ bs) = false
bytes_eq (a ∷ xs) [] = false
bytes_eq (a ∷ xs) (b ∷ bs) = (a == b) && bytes_eq xs bs

-- What is authenticated: the session's eight bytes and then the address.
abbrev pub cookie_message : ℕ → List ℕ → List ℕ
cookie_message session client_addr = be 8 session ++ client_addr

module _ (hmac : List ℕ → List ℕ → List ℕ) where
  unfoldable pub make_cookie : List ℕ → ℕ → List ℕ → List ℕ
  make_cookie secret session client_addr =
      copy_array cookie_size (hmac secret (cookie_message session client_addr))

  unfoldable pub verify_cookie : List ℕ → ℕ → List ℕ → List ℕ → Bool
  verify_cookie secret session client_addr got =
      if not (length got == cookie_size)
      then false
      else bytes_eq (make_cookie secret session client_addr) got
