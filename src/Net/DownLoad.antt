-- ===== src/Net/DownLoad.antt =====
-- core/net/udpdown.go: the client of a downstream flow, over a socket. `stop` waits until the receive
-- loop has ended, so that there is one loop at most: it is `flow`, and a round of it is a step. The
-- clock is read once in a step; a flow's loop reads it first when the flow starts.
pub mod Cookie
pub mod Granted
pub mod Ended
use qoe_test_harness.Prelude.{
  ℕ, zero, ◌+◌, ◌-◌, ◌*◌, Bool, true, false, Option, none, some, List, [], ◌∷◌, Result, ok, err,
  length, drop, replicate, leb, ◌==◌, if◌then◌else◌,
}
use qoe_test_harness.Prelude.Int.{pos}
use qoe_test_harness.Prelude.Floats.{Float64}
use qoe_test_harness.Prelude.Calls.{M, ◌>>=◌, ◌>>◌, return}
use qoe_test_harness.Protocol.Bytes.{overlay, write}
use qoe_test_harness.Protocol.Header.{WireError, header_size, marshal_header}
use qoe_test_harness.Protocol.Handshake.{cookie_size}
use qoe_test_harness.Protocol.Start.{msg_stop, Start, start_size, marshal_start}
use qoe_test_harness.Net.Pace.{Meter, new_meter, add_bytes, reset, bps}
use qoe_test_harness.Net.Seams.{Failure}
use qoe_test_harness.Net.Socket.{
  Inbound, packet, timed_out, read_failed, Socket, ConnError, Client, io, wire, update,
}
use qoe_test_harness.Net.Hello.{cookie_reply}

-- 200 ms, 500 ms, and 20 s in milliseconds.
abbrev pub down_achieved_window : ℕ
down_achieved_window = 200_000_000

abbrev pub down_handshake_timeout : ℕ
down_handshake_timeout = 500_000_000

abbrev pub down_default_duration_ms : ℕ
down_default_duration_ms = 20_000

-- 100 ms.
abbrev poll : ℕ
poll = 100_000_000

-- What the receive loop keeps.
pub record Receiving : Type 0 where
  pub meter : Meter
  pub last_reset : ℕ

-- UDPDownLoad, but for its socket.
pub record UdpDownLoad : Type 0 where
  pub session : ℕ
  pub cookie : List ℕ
  pub have_token : Bool
  pub mark : ℕ
  pub achieved : ℕ
  pub flow : Option Receiving

-- `dialled` is the outcome of ResolveUDPAddr and DialUDP.
unfoldable pub dial_down :
    (socket : Socket) → Result Failure socket.World → ℕ → Result Failure (Client socket UdpDownLoad)
dial_down socket (err f) session = err f
dial_down socket (ok w) session = ok (record {
  world = w;
  own = record {
    session = session;
    cookie = replicate cookie_size 0;
    have_token = false;
    mark = 0;
    achieved = 0;
    flow = none;
  };
})

abbrev pub start_of : UdpDownLoad → ℕ → Start
start_of d rate = record {
  header = record { type = 0; session = d.session; seq = 0 };
  cookie = d.cookie;
  rate_bps = rate;
  duration_ms = down_default_duration_ms;
  marking = d.mark;
}

module _ (socket : Socket) where
  abbrev pub Down : Type 0
  Down = Client socket UdpDownLoad

  -- The cookie is fetched once.
  unfoldable pub handshake : M ConnError Down (Unit {0})
  unfolding cookie_reply
  handshake d =
      if d.own.have_token
      then (ok tt, d)
      else (do
        b ← cookie_reply socket down_handshake_timeout d.own.session
        update (λ d. record d {
          own = record (d.own) {
            cookie = overlay d.own.cookie (drop header_size b);
            have_token = true;
          };
        }))
          d

  -- The Stop packet, whose errors are dropped.
  abbrev pub say : Down → Result WireError (ℕ × List ℕ) → Down
  say d (err e) = d
  say d (ok r) = record d { world = (socket.write (write r.1 header_size d.own.cookie) d.world).1 }

  abbrev pub say_stop : Down → Down
  say_stop d = say d (
      marshal_header (record { type = msg_stop; session = d.own.session; seq = 0 })
        (replicate (header_size + cookie_size) 0))

  abbrev pub halt : Down → Option Receiving → Down
  halt d none = d
  halt d (some f) =
      let told = if d.own.have_token then say_stop d else d in
      record told { own = record (d.own) { flow = none } }

  unfoldable pub stop : Down → Down
  stop d = halt d d.own.flow

  abbrev pub begin : Down → Down
  begin d = record d {
    own = record (d.own) {
      achieved = 0;
      flow =
          some (record { meter = new_meter (socket.now d.world); last_reset = socket.now d.world });
    };
  }

  -- SetRateBps behind the Stop, for a rate that is not 0.
  unfoldable pub start_flow : ℕ → M ConnError Down (Unit {0})
  unfolding handshake
  start_flow rate = do
    handshake
    (λ d.
        (do
          (n, out) ← wire (marshal_start (start_of d.own rate) (replicate start_size 0))
          io socket (socket.write out))
          d)
    update begin

  unfoldable pub set_rate_bps : ℕ → M ConnError Down (Unit {0})
  unfolding start_flow stop
  set_rate_bps rate d = if rate == 0 then (ok tt, stop d) else start_flow rate (stop d)

  abbrev pub achieved_bps : Down → ℕ
  achieved_bps d = d.own.achieved

  abbrev pub set_marking : Down → ℕ → Down
  set_marking d m = record d { own = record (d.own) { mark = m } }

  unfoldable pub close : M ConnError Down (Unit {0})
  unfolding stop
  close d = io socket socket.close (stop d)

  module _ (fl : Float64) (seconds : ℕ → fl.F) where
    -- `n` bytes at the time `now`.
    unfoldable pub receive : UdpDownLoad → Receiving → ℕ → ℕ → UdpDownLoad
    receive d f n now =
        let meter = add_bytes f.meter (pos n) in
        if leb down_achieved_window (now - f.last_reset)
        then record d {
          achieved = bps fl seconds meter now;
          flow = some (record { meter = reset meter now; last_reset = now });
        }
        else record d { flow = some (record f { meter = meter }) }

    -- A round of the receive loop.
    unfoldable pub recv_round : Down → Down
    unfolding receive
    recv_round d = elim d.own.flow [
      | none ↦ d
      | some f ↦
          let w = (socket.set_read_deadline poll d.world).1 in
          let (got, w') = socket.read w in
          elim got [
            | packet b oob ↦ record { world = w'; own = receive d.own f (length b) (socket.now w') }
            | timed_out e ↦ record d { world = w' }
            | read_failed e ↦ record d { world = w' }
          ]
    ]
