-- ===== src/Net/DownLoad/Ended.antt =====
-- What the server does with the Stop of a downstream client.
use Prim.Native.String.{String}
use qoe_test_harness.Prelude.{
  ℕ, ◌+◌, ◌≡◌, sym, subst, ap, ◌∙◌, true, not, none, some, List, [], ◌++◌, length, replicate,
  not_short, if-false, if-true, arith,
}
use qoe_test_harness.Prelude.Int.{ℤ}
use qoe_test_harness.Protocol.Bytes.{slice}
use qoe_test_harness.Protocol.Header.{header_size, header_bytes}
use qoe_test_harness.Protocol.Header.RoundTrip.{marshal_header-eq, read_header}
use qoe_test_harness.Protocol.Handshake.{cookie_size, verify_cookie}
use qoe_test_harness.Protocol.Handshake.Binding.{verify_cookie_iff}
use qoe_test_harness.Protocol.Start.{msg_stop}
use qoe_test_harness.Net.Socket.{Socket}
use qoe_test_harness.Net.DownLoad.{UdpDownLoad, Down, Receiving, say, say_stop, halt, stop}
use qoe_test_harness.Server.{Addr, Server, stop_down, on_stop, handle}
use qoe_test_harness.Server.Effects.{Stops, stop_down-Stops}
use qoe_test_harness.Net.DownLoad.Cookie.{
  header_of, header_of-IsHeader, overlay-whole, take_all, handle-of,
}
use qoe_test_harness.Net.DownLoad.Granted.{Granted}

module _ (socket : Socket) where
  -- The Stop packet of a client.
  abbrev pub stop_packet : UdpDownLoad → List ℕ
  stop_packet d = header_bytes (header_of msg_stop d.session) ++ d.cookie

  -- When a client that holds the cookie of a server for its address stops a flow that it measures, it writes a Stop packet, and it no longer
  -- measures, whether the write succeeds or not. With this packet the server's map has no flow for the client's address, the
  -- flow that it had there is cancelled, and the server answers nothing.
  pub stop_honoured :
      (addr_string : Addr → String) (hmac : List ℕ → List ℕ → List ℕ) (s : Server) (tos : ℕ)
      (src : Addr) (now : ℕ) (wall : ℤ) (d : Down socket) (f : Receiving)
      → Granted socket hmac s.secret src d.own
      → d.own.flow ≡ some f
      → (stop socket d ≡ record {
        world = (socket.write (stop_packet d.own) d.world).1;
        own = record (d.own) { flow = none };
      })
        × Stops addr_string s src (handle addr_string hmac s (stop_packet d.own) tos src now wall)
  unfolding stop on_stop
  stop_honoured addr_string hmac s tos src now wall d f g running = (
    ap (halt socket d) running
        ∙ ap (λ (t : Down socket). record t { own = record (d.own) { flow = none } })
            (if-true _ (say_stop socket d) d g.has_token
              ∙ ap (say socket d) (
                  marshal_header-eq (header_of msg_stop d.own.session) (replicate 36 0)
                    (omega arith))
              ∙ ap
                  (λ t. record d {
                    world =
                        (socket.write (header_bytes (header_of msg_stop d.own.session) ++ t)
                          d.world).1;
                  })
                  (overlay-whole (replicate 16 0) d.own.cookie g.cookie_length)),
    subst (Stops addr_string s src) (sym ended) (stop_down-Stops addr_string s src),
  )
    where
      accepted :
          verify_cookie hmac s.secret d.own.session src.ip
            (slice (stop_packet d.own) header_size cookie_size)
          ≡ true
      accepted =
          (verify_cookie_iff hmac s.secret d.own.session src.ip _).1
            (take_all 16 d.own.cookie g.cookie_length ∙ g.is_cookie)

      ended :
          handle addr_string hmac s (stop_packet d.own) tos src now wall
          ≡ (stop_down addr_string s (addr_string src), [])
      ended =
          handle-of addr_string hmac s tos src now wall (stop_packet d.own)
            (header_of msg_stop d.own.session)
            (read_header (header_of msg_stop d.own.session) d.own.cookie
              (header_of-IsHeader msg_stop d.own.session (omega arith) g.session_u64))
          ∙ ap (λ t. (t, []))
              (if-false _ s _ (
                  not_short (length (stop_packet d.own)) (header_size + cookie_size)
                    (omega (arith, g.cookie_length)))
                ∙ if-false _ s (stop_down addr_string s (addr_string src)) (ap not accepted))
