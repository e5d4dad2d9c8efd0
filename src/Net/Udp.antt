-- ===== src/Net/Udp.antt =====
-- core/net/udpconn.go: the probe connection, over a socket. `parse_control` is
-- unix.ParseSocketControlMessage. A read buffer holds what the read returns: the code reads no
-- further.
pub mod Probing
use qoe_test_harness.Prelude.{
  ℕ, ◌+◌, ◌*◌, ◌%◌, Bool, true, false, not, ◌||◌, Option, none, some, List, [], ◌∷◌, Result, ok,
  err, length, drop, replicate, ltb, ◌==◌, if◌then◌else◌,
}
use qoe_test_harness.Prelude.Int.{ℤ, pos, negsuc, eq_int}
use qoe_test_harness.Prelude.Calls.{M, ◌>>=◌, ◌>>◌, return}
use qoe_test_harness.Protocol.Header.{header_size}
use qoe_test_harness.Protocol.Packet as Packet
use qoe_test_harness.Protocol.Packet.{probe_size, marshal_probe, unmarshal_echo}
use qoe_test_harness.Protocol.Handshake.{cookie_size, copy_array}
use qoe_test_harness.Net.Conn.{Probe, Echo}
use qoe_test_harness.Net.Seams.{Failure}
use qoe_test_harness.Net.Socket.{
  ConnError, net_error, err_no_echo, Client, io, wire, update, set_option, Inbound, packet,
  timed_out, read_failed, Socket, ip_tos, ip_recvtos, ControlMessage, parse_recv_tos,
}
use qoe_test_harness.Net.Hello.{cookie_reply}

-- 200 ms.
abbrev pub default_read_timeout : ℕ
default_read_timeout = 200_000_000

-- The echo that the engine sees, of a packet that arrived at `recv_at` with the TOS byte `down_tos`.
abbrev pub client_echo : Packet.Echo → ℕ → ℕ → Echo
client_echo e recv_at down_tos = record {
  seq = e.header.seq;
  sent_at = e.t_send_nanos;
  recv_at = recv_at;
  server_recv_at = e.t_recv_server_nanos;
  tos_observed = e.tos_observed;
  ce_seen = not (e.ce == 0);
  down_tos_observed = down_tos;
  down_ce = (down_tos % 4) == 3;
}

-- UDPConn, but for its socket.
pub record UdpConn : Type 0 where
  pub read_timeout : ℕ
  pub last_tos : ℤ

module _ (socket : Socket) where
  abbrev pub Conn : Type 0
  Conn = Client socket UdpConn

  unfoldable pub enable_recv_tos : {R : Type 0} → M ConnError (Client socket R) (Unit {0})
  enable_recv_tos = set_option socket ip_recvtos 1

  unfoldable pub set_tos : {R : Type 0} → ℕ → M ConnError (Client socket R) (Unit {0})
  set_tos tos = set_option socket ip_tos tos

  -- `dialled` is the outcome of ResolveUDPAddr and DialUDP; an error of the option is dropped.
  unfoldable pub dial_udp : Result Failure socket.World → Result Failure Conn
  unfolding enable_recv_tos
  dial_udp (err f) = err f
  dial_udp (ok w) =
      ok
        (enable_recv_tos (record {
          world = w;
          own = record { read_timeout = default_read_timeout; last_tos = negsuc 0 };
        })).1

  abbrev pub set_read_timeout : Conn → ℕ → Conn
  set_read_timeout u d = record u { own = record (u.own) { read_timeout = d } }

  unfoldable pub handshake : ℕ → M ConnError Conn (List ℕ)
  unfolding cookie_reply
  handshake session u =
      (do
        b ← cookie_reply socket u.own.read_timeout session
        return (copy_array cookie_size (drop header_size b)))
        u

  -- The TOS of the socket is set once per change.
  unfoldable pub mark : ℕ → M ConnError Conn (Unit {0})
  unfolding set_tos
  mark tos u =
      if eq_int (pos tos) u.own.last_tos
      then (ok tt, u)
      else (do set_tos tos; update (λ v. record v { own = record (v.own) { last_tos = pos tos } }))
          u

  unfoldable pub send_probe : Probe → M ConnError Conn (Unit {0})
  send_probe p = do
    mark p.marking
    (n, buf) ← wire (
        marshal_probe
          (record {
            header = record { type = 0; session = 0; seq = p.seq };
            t_send_nanos = pos p.sent_at;
            tos_intended = p.marking;
          })
          (replicate probe_size 0))
    io socket (socket.write buf)

  abbrev pub set_deadline : M ConnError Conn (Unit {0})
  set_deadline u = io socket (socket.set_read_deadline u.own.read_timeout) u

  unfoldable pub close : {R : Type 0} → M ConnError (Client socket R) (Unit {0})
  close = io socket socket.close

  module _ (parse_control : List ℕ → Result Failure (List ControlMessage)) where
    abbrev pub taken_marked : Conn → Inbound × socket.World → Result ConnError (List ℕ × ℕ) × Conn
    taken_marked u (packet b oob, w) =
        (ok (b, parse_recv_tos (parse_control oob)), record u { world = w })
    taken_marked u (timed_out f, w) = (err err_no_echo, record u { world = w })
    taken_marked u (read_failed f, w) = (err (net_error f), record u { world = w })

    -- `conn.ReadMsgUDP`, with the TOS byte.
    abbrev pub read_marked : M ConnError Conn (List ℕ × ℕ)
    read_marked u = taken_marked u (socket.read u.world)

    unfoldable pub recv_echo : M ConnError Conn Echo
    recv_echo = do
      set_deadline
      (b, down_tos) ← read_marked
      recv_at ← λ u. (ok (socket.now u.world), u)
      e ← wire (unmarshal_echo b)
      return (client_echo e recv_at down_tos)
