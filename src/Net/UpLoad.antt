-- ===== src/Net/UpLoad.antt =====
-- core/net/udpload.go: the upstream load, over a socket. `stop` waits until both loops have ended, so
-- that there is one pair of them at most: they are `flow`, a tick of the sender and a round of the
-- receiver are steps. The clock is read once in a step.
pub mod Reports
pub mod Ticks
use qoe_test_harness.Prelude.{
  ℕ, zero, suc, ◌+◌, ◌-◌, ◌*◌, ◌%◌, ◌^◌, Bool, true, false, not, ◌&&◌, Option, none, some, List, [],
  ◌∷◌, Result, ok, err, replicate, leb, ◌==◌, if◌then◌else◌,
}
use qoe_test_harness.Prelude.Int.{ℤ, pos, lt_int, eq_int, pos_part}
use qoe_test_harness.Prelude.Floats.{Float64, zero_f}
use qoe_test_harness.Prelude.Calls.{M, ◌>>=◌, ◌>>◌}
use qoe_test_harness.Protocol.Bytes.{to_uint64, to_int64}
use qoe_test_harness.Protocol.Header.{marshal_header}
use qoe_test_harness.Protocol.Load.{msg_load, LoadStat, unmarshal_load_stat}
use qoe_test_harness.Net.Pace.{Pacer, new_pacer, due, mark_sent}
use qoe_test_harness.Net.Seams.{Failure}
use qoe_test_harness.Net.Socket.{
  Inbound, packet, timed_out, read_failed, Socket, ConnError, Client, io, set_option, ip_tos,
}

abbrev pub load_pkt_size : ℕ
load_pkt_size = 1200

-- 100 ms.
abbrev poll : ℕ
poll = 100_000_000

-- What the two loops keep: the pacer, and the last report.
pub record Loading : Type 0 where
  pub pacer : Pacer
  pub last_bytes : ℕ
  pub last_nanos : ℤ

-- UDPLoad, but for its socket.
pub record UdpLoad : Type 0 where
  pub achieved : ℕ
  pub flow : Option Loading

-- `dialled` is the outcome of ResolveUDPAddr and DialUDP.
unfoldable pub dial_load :
    (socket : Socket) → Result Failure socket.World → Result Failure (Client socket UdpLoad)
dial_load socket (err f) = err f
dial_load socket (ok w) = ok (record { world = w; own = record { achieved = 0; flow = none } })

-- A load packet: a header, and padding.
abbrev pub load_packet : List ℕ
load_packet =
    elim (marshal_header (record { type = msg_load; session = 0; seq = 0 })
      (replicate load_pkt_size 0)) [ ok r ↦ r.1 | err e ↦ replicate load_pkt_size 0 ]

-- The difference of two int64, which wraps.
abbrev pub sub_int64 : ℤ → ℤ → ℤ
sub_int64 a b = to_int64 ((to_uint64 a + (2 ^ 64 - to_uint64 b)) % 2 ^ 64)

module _ (fl : Float64) (seconds : ℕ → fl.F) where
  open fl use {F, mul, div, lt, of_ℕ, of_ℤ, decimal, truncate}

  -- The nanoseconds `n` in seconds.
  abbrev pub span : ℤ → F
  span n = div (of_ℤ n) (decimal 1_000_000_000 0)

  -- The receiver with a report.
  unfoldable pub on_report : UdpLoad → Loading → LoadStat → UdpLoad
  on_report l f st =
      let dt = span (sub_int64 st.t_server_nanos f.last_nanos) in
      let next = some (record f { last_bytes = st.bytes_recv; last_nanos = st.t_server_nanos }) in
      if not (eq_int f.last_nanos (pos 0))
        && lt_int f.last_nanos st.t_server_nanos
        && leb f.last_bytes st.bytes_recv
        && lt (zero_f fl) dt
      then record {
        achieved = truncate (div (mul (of_ℕ (st.bytes_recv - f.last_bytes)) (decimal 8 0)) dt);
        flow = next;
      }
      else record l { flow = next }

  -- The receiver with a packet; what is no report is passed over.
  unfoldable pub on_packet : UdpLoad → List ℕ → UdpLoad
  unfolding on_report
  on_packet l b = elim l.flow [
    | none ↦ l
    | some f ↦ elim (unmarshal_load_stat b) [ err e ↦ l | ok st ↦ on_report l f st ]
  ]

  module _ (socket : Socket) where
    abbrev pub Up : Type 0
    Up = Client socket UdpLoad

    unfoldable pub stop : Up → Up
    stop l = record l { own = record (l.own) { flow = none } }

    unfoldable pub set_rate_bps : ℕ → M ConnError Up (Unit {0})
    unfolding stop
    set_rate_bps rate l = if rate == 0 then (ok tt, stop l) else (
      ok tt,
      record l {
        own = record {
          achieved = 0;
          flow = some (record {
            pacer = new_pacer (socket.now l.world) load_pkt_size rate;
            last_bytes = 0;
            last_nanos = pos 0;
          });
        };
      },
    )

    abbrev pub achieved_bps : Up → ℕ
    achieved_bps l = l.own.achieved

    unfoldable pub set_marking : ℕ → M ConnError Up (Unit {0})
    set_marking m = set_option socket ip_tos m

    unfoldable pub close : M ConnError Up (Unit {0})
    unfolding stop
    close l = io socket socket.close (stop l)

    -- The writes of a tick, `n` of them or up to the first error: how many were written, and the world.
    unfoldable pub write_due : ℕ → socket.World → ℕ × socket.World
    write_due zero w = (0, w)
    write_due (suc n) w = elim (socket.write load_packet w).0 [
      | some e ↦ (0, (socket.write load_packet w).1)
      | none ↦ let (k, w') = write_due n (socket.write load_packet w).1 in (suc k, w')
    ]

    -- A tick of the sender: all the due packets count as sent.
    unfoldable pub send_tick : Up → Up
    unfolding write_due
    send_tick l = elim l.own.flow [
      | none ↦ l
      | some f ↦
          let n = due fl seconds f.pacer (socket.now l.world) in
          record l {
            world = (write_due (pos_part n) l.world).1;
            own = record (l.own) { flow = some (record f { pacer = mark_sent f.pacer n }) };
          }
    ]

    -- A round of the receiver.
    unfoldable pub recv_round : Up → Up
    unfolding on_packet
    recv_round l = elim l.own.flow [
      | none ↦ l
      | some f ↦
          let w = (socket.set_read_deadline poll l.world).1 in
          let (got, w') = socket.read w in
          elim got [
            | packet b oob ↦ record { world = w'; own = on_packet l.own b }
            | timed_out e ↦ record l { world = w' }
            | read_failed e ↦ record l { world = w' }
          ]
    ]
