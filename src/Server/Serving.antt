-- ===== src/Server/Serving.antt =====
-- server/server.go: the loops around the handlers. Serve reads a packet and handles it, a round at a
-- time; downLoop, while its context lives, writes what its pacer says is due, a tick at a time. The
-- clock is read once in a tick.
pub mod Paced
use Prim.Native.String.{String}
use qoe_test_harness.Prelude.{
  ℕ, zero, suc, ◌+◌, Option, none, some, List, [], ◌∷◌, Result, ok, err, replicate, ◌==◌,
  if◌then◌else◌,
}
use qoe_test_harness.Prelude.Int.{ℤ, pos_part}
use qoe_test_harness.Prelude.Floats.{Float64}
use qoe_test_harness.Protocol.Header.{marshal_header}
use qoe_test_harness.Protocol.Load.{msg_load}
use qoe_test_harness.Net.Pace.{Pacer, new_pacer, due, mark_sent}
use qoe_test_harness.Net.Seams.{Failure}
use qoe_test_harness.Prelude.Calls.{M}
use qoe_test_harness.Net.Socket.{
  ControlMessage, first_tos, Socket, ConnError, Client, io, set_option, ip_recvtos,
}
use qoe_test_harness.Server.{Addr, Server, Datagram, handle, listen, close}

abbrev pub down_pkt_size : ℕ
down_pkt_size = 1200

-- parseTOS; `parsed` is what ParseSocketControlMessage makes of the control bytes.
unfoldable pub parse_tos : Result Failure (List ControlMessage) → ℕ
parse_tos (ok msgs) = first_tos msgs
parse_tos (err f) = 0

-- What a round of Serve comes upon: its context is done, the deadline cannot be set, or what
-- ReadMsgUDP returns: a packet with its control bytes and source, a timeout, or another error.
pub data Arrival : Type 0 where
  cancelled : Failure → Arrival
  no_deadline : Failure → Arrival
  packet : List ℕ → List ℕ → Addr → Arrival
  timed_out : Arrival
  read_failed : Failure → Arrival

-- A round of Serve: the error that ends the loop, or the server with what it sends.
unfoldable pub serve_round :
    (Addr → String)
    → (List ℕ → List ℕ → List ℕ)
    → (List ℕ → Result Failure (List ControlMessage))
    → Server
    → Arrival
    → ℕ
    → ℤ
    → Result Failure (Server × List Datagram)
unfolding parse_tos
serve_round addr_string hmac parse_control s (cancelled f) now wall = err f
serve_round addr_string hmac parse_control s (no_deadline f) now wall = err f
serve_round addr_string hmac parse_control s (packet b oob src) now wall =
    ok (handle addr_string hmac s b (parse_tos (parse_control oob)) src now wall)
serve_round addr_string hmac parse_control s timed_out now wall = ok (s, [])
serve_round addr_string hmac parse_control s (read_failed f) now wall = err f

module _ (socket : Socket) where
  -- Listen, on the outcome of ResolveUDPAddr and ListenUDP. The error of enableRecvTOS is dropped.
  unfoldable pub open_server :
      Result Failure socket.World → List ℕ → Result Failure (Client socket Server)
  unfolding listen
  open_server (err f) secret = err f
  open_server (ok w) secret =
      ok (set_option socket ip_recvtos 1 (record { world = w; own = listen secret })).1

  -- Close: the flows are cancelled, and the socket is closed.
  unfoldable pub close_server : (Addr → String) → M ConnError (Client socket Server) (Unit {0})
  unfolding close
  close_server addr_string s = io socket socket.close (record s { own = close addr_string s.own })

-- The server's socket for writes: `write_to b tos src` is WriteMsgUDP with the TOS in a control
-- message, or WriteToUDP if there is none.
pub record Outlet : Type 1 where
  pub World : Type 0
  pub now : World → ℕ
  pub write_to : List ℕ → Option ℕ → Addr → World → Option Failure × World

-- A downstream packet: a header, and padding.
abbrev pub down_packet : List ℕ
down_packet =
    elim (marshal_header (record { type = msg_load; session = 0; seq = 0 })
      (replicate down_pkt_size 0)) [ ok r ↦ r.1 | err e ↦ replicate down_pkt_size 0 ]

-- The control message of a flow: a mark of 0 needs none.
abbrev pub tos_of : ℕ → Option ℕ
tos_of marking = if marking == 0 then none else some marking

-- What downLoop keeps.
pub record PacedFlow : Type 0 where
  pub pacer : Pacer
  pub to : Addr
  pub tos : Option ℕ

unfoldable pub begin_down : Addr → ℕ → ℕ → ℕ → PacedFlow
begin_down src rate marking now = record {
  pacer = new_pacer now down_pkt_size rate;
  to = src;
  tos = tos_of marking;
}

module _ (fl : Float64) (seconds : ℕ → fl.F) (outlet : Outlet) where
  -- The writes of a tick, `n` of them or up to the first error: how many were written, and the world.
  unfoldable pub write_all : ℕ → PacedFlow → outlet.World → ℕ × outlet.World
  write_all zero f w = (0, w)
  write_all (suc n) f w = elim (outlet.write_to down_packet f.tos f.to w).0 [
    | some e ↦ (0, (outlet.write_to down_packet f.tos f.to w).1)
    | none ↦ let (k, w') = write_all n f (outlet.write_to down_packet f.tos f.to w).1 in (suc k, w')
  ]

  -- A tick: the number of packets written beside the flow and the world afterwards.
  unfoldable pub down_tick : PacedFlow → outlet.World → ℕ × PacedFlow × outlet.World
  unfolding write_all
  down_tick f w =
      let n = due fl seconds f.pacer (outlet.now w) in
      let (k, w') = write_all (pos_part n) f w in (k, record f { pacer = mark_sent f.pacer n }, w')
