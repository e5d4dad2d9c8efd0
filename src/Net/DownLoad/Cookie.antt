-- ===== src/Net/DownLoad/Cookie.antt =====
-- The Hello and the Cookie between a client and the server.
use Prim.Native.String.{String}
use qoe_test_harness.Prelude.{
  ℕ, zero, suc, ◌+◌, ◌≡◌, refl, sym, ap, ◌∙◌, true, false, none, List, [], ◌∷◌, ◌++◌, Result, ok,
  err, length, take, replicate, not_short, if-false, arith,
}
use qoe_test_harness.Prelude.Int.{ℤ}
use qoe_test_harness.Prelude.Calls.{Runs, Runs-bind, Runs-then}
use qoe_test_harness.Protocol.Bytes.{IsByte, IsU64, overlay, write}
use qoe_test_harness.Protocol.Header.{
  Header, IsHeader, WireError, header_size, header_bytes, msg_hello, msg_cookie, unmarshal_header,
}
use qoe_test_harness.Protocol.Header.RoundTrip.{marshal_header-eq, read_header}
use qoe_test_harness.Protocol.Handshake.{cookie_size, make_cookie}
use qoe_test_harness.Protocol.Handshake.Binding.{length-make_cookie}
use qoe_test_harness.Net.Socket.{packet, Socket, Client, settle, taken, wire}
use qoe_test_harness.Net.Hello.{cookie_reply}
use qoe_test_harness.Net.DownLoad.{down_handshake_timeout, Down, handshake}
use qoe_test_harness.Server.{Addr, Server, Datagram, send_if_ok, send_cookie, dispatch, handle}

abbrev pub header_of : ℕ → ℕ → Header
header_of type session = record { type = type; session = session; seq = 0 }

-- The packets of the exchange.
abbrev pub hello_packet : ℕ → List ℕ
hello_packet session = header_bytes (header_of msg_hello session) ++ replicate 44 0

abbrev pub cookie_packet : ℕ → List ℕ → List ℕ
cookie_packet session cookie = header_bytes (header_of msg_cookie session) ++ cookie

pub header_of-IsHeader :
    (type session : ℕ) → IsByte type → IsU64 session → IsHeader (header_of type session)
header_of-IsHeader type session t s = record {
  type_byte = t;
  session_u64 = s;
  seq_u64 = omega arith;
}

pub overlay-whole : (xs bs : List ℕ) → length bs ≡ length xs → overlay xs bs ≡ bs
overlay-whole [] [] e = refl
overlay-whole [] (b ∷ bs) e = absurd (omega (arith, e))
overlay-whole (x ∷ xs) [] e = absurd (omega (arith, e))
overlay-whole (x ∷ xs) (b ∷ bs) e = ap (λ t. b ∷ t) (overlay-whole xs bs (omega (arith, e)))

pub take_all : (n : ℕ) (xs : List ℕ) → length xs ≡ n → take n xs ≡ xs
take_all zero [] e = refl
take_all zero (x ∷ xs) e = absurd (omega (arith, e))
take_all (suc n) [] e = refl
take_all (suc n) (x ∷ xs) e = ap (λ t. x ∷ t) (take_all n xs (omega (arith, e)))

module _ (addr_string : Addr → String) (hmac : List ℕ → List ℕ → List ℕ) (s : Server) (tos : ℕ)
    (src : Addr) (now : ℕ) (wall : ℤ) where
  pub handle-of :
      (b : List ℕ) (h : Header)
      → unmarshal_header b ≡ ok h
      → handle addr_string hmac s b tos src now wall
        ≡ dispatch addr_string hmac s h b tos src now wall
  unfolding handle
  handle-of b h e = ap handled e
    where
      handled : Result WireError Header → Server × List Datagram
      handled r = elim r [
        | err e ↦ (s, [])
        | ok h ↦ dispatch addr_string hmac s h b tos src now wall
      ]

  -- The server answers the Hello with the cookie.
  handle-hello :
      (session : ℕ)
      → IsU64 session
      → handle addr_string hmac s (hello_packet session) tos src now wall ≡ (
        s,
        record {
          to = src;
          payload = cookie_packet session (make_cookie hmac s.secret session src.ip);
          tos = none;
        }
            ∷ [],
      )
  unfolding send_cookie
  handle-hello session u =
      let cookie = make_cookie hmac s.secret session src.ip in
      handle-of (hello_packet session) (header_of msg_hello session) (
        read_header (header_of msg_hello session) (replicate 44 0)
          (header_of-IsHeader msg_hello session (omega arith) u))
      ∙ ap
          (λ r. (
            s,
            send_if_ok r
                (λ out. record { to = src; payload = write out header_size cookie; tos = none }),
          ))
          (marshal_header-eq (header_of msg_cookie session) (replicate 36 0) (omega arith))
      ∙ ap (λ t. (s, record { to = src; payload = cookie_packet session t; tos = none } ∷ []))
          (overlay-whole (replicate 16 0) cookie (length-make_cookie hmac s.secret session src.ip))

module _ (socket : Socket) where
  -- A client whose socket delivers a cookie.
  cookie_reply-Runs :
      {R : Type 0} (timeout session : ℕ) (cookie : List ℕ) (c : Client socket R)
      (w w' w'' : socket.World) (oob : List ℕ)
      → IsU64 session
      → length cookie ≡ cookie_size
      → socket.write (hello_packet session) c.world ≡ (none, w)
      → socket.set_read_deadline timeout w ≡ (none, w')
      → socket.read w' ≡ (packet (cookie_packet session cookie) oob, w'')
      → Runs
          (cookie_reply socket timeout session)
          c
          (cookie_packet session cookie)
          (record c { world = w'' })
  unfolding cookie_reply
  cookie_reply-Runs timeout session cookie c w w' w'' oob u size wrote ready arrived =
      Runs-bind _ _ _ _ _
        (ap (λ r. wire r c)
          (marshal_header-eq (header_of msg_hello session) (replicate 64 0) (omega arith)))
        (Runs-then _ _ _ _ _ (ap (settle socket c) wrote) (
          Runs-then _ _ _ _ _ (ap (settle socket (record c { world = w })) ready) (
            Runs-bind _ _ _ _ _ (ap (taken socket (record c { world = w' })) arrived) (
              Runs-bind _ _ _ _ _
                (ap (λ r. wire r (record c { world = w'' }))
                  (read_header (header_of msg_cookie session) cookie
                    (header_of-IsHeader msg_cookie session (omega arith) u)))
                (rw
                  (not_short (length (cookie_packet session cookie)) (header_size + cookie_size)
                    (omega (arith, size)))
                  refl)))))

  -- The Hello of a client without a cookie is answered with the session's cookie, and when the client's socket takes the Hello and
  -- delivers the answer, the handshake stores this cookie. The client's cookie is an array of the cookie's size, and its session
  -- fits 64 bits.
  pub handshake_granted :
      (addr_string : Addr → String) (hmac : List ℕ → List ℕ → List ℕ) (s : Server) (tos : ℕ)
      (src : Addr) (now : ℕ) (wall : ℤ) (d : Down socket) (w w' w'' : socket.World) (oob : List ℕ)
      → IsU64 d.own.session
      → length d.own.cookie ≡ cookie_size
      → d.own.have_token ≡ false
      → socket.write (hello_packet d.own.session) d.world ≡ (none, w)
      → socket.set_read_deadline down_handshake_timeout w ≡ (none, w')
      → socket.read w' ≡ (
        packet (cookie_packet d.own.session (make_cookie hmac s.secret d.own.session src.ip)) oob,
        w'',
      )
      → (handle addr_string hmac s (hello_packet d.own.session) tos src now wall ≡ (
        s,
        record {
          to = src;
          payload = cookie_packet d.own.session (make_cookie hmac s.secret d.own.session src.ip);
          tos = none;
        }
            ∷ [],
      ))
        × Runs (handshake socket) d tt (record {
          world = w'';
          own = record (d.own) {
            cookie = make_cookie hmac s.secret d.own.session src.ip;
            have_token = true;
          };
        })
  unfolding handshake
  handshake_granted addr_string hmac s tos src now wall d w w' w'' oob u size fresh wrote ready
        arrived =
      let cookie = make_cookie hmac s.secret d.own.session src.ip in
      let long = length-make_cookie hmac s.secret d.own.session src.ip in
      (
        handle-hello addr_string hmac s tos src now wall d.own.session u,
        if-false _ _ _ fresh
            ∙ (Runs-bind _ _ _ _ _
                (cookie_reply-Runs down_handshake_timeout d.own.session cookie d w w' w'' oob u long
                  wrote ready arrived)
                (ap
                  (λ c. (
                    ok tt,
                    record { world = w''; own = record (d.own) { cookie = c; have_token = true } },
                  ))
                  (overlay-whole d.own.cookie cookie (long ∙ sym size)))),
      )
