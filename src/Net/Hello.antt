-- ===== src/Net/Hello.antt =====
-- The exchange of a Hello and a Cookie as a client of core/net runs it: Handshake of udpconn.go and
-- handshake of udpdown.go, which differ in the timeout and in where the cookie goes.
use qoe_test_harness.Prelude.{ℕ, ◌+◌, not, ◌||◌, List, length, replicate, ltb, ◌==◌, if◌then◌else◌}
use qoe_test_harness.Prelude.Calls.{M, ◌>>=◌, ◌>>◌, return}
use qoe_test_harness.Protocol.Header.{
  header_size, msg_hello, msg_cookie, marshal_header, unmarshal_header,
}
use qoe_test_harness.Protocol.Handshake.{cookie_size}
use qoe_test_harness.Net.Socket.{
  Socket, Client, ConnError, err_no_echo, io, read_packet, wire, refuse,
}

-- The reply of the server, when it is a cookie.
unfoldable pub cookie_reply :
    (socket : Socket) {R : Type 0} → ℕ → ℕ → M ConnError (Client socket R) (List ℕ)
cookie_reply socket timeout session = do
  (n, hello) ←
      wire
        (marshal_header (record { type = msg_hello; session = session; seq = 0 }) (replicate 64 0))
  io socket (socket.write hello)
  io socket (socket.set_read_deadline timeout)
  b ← read_packet socket
  h ← wire (unmarshal_header b)
  (if not (h.type == msg_cookie) || ltb (length b) (header_size + cookie_size)
      then refuse err_no_echo
      else return b)
