-- ===== src/Examples/Loads.antt =====
-- The senders and receivers of load at concrete values.
use qoe_test_harness.Prelude.{ℕ, ◌/◌, ◌≤◌, ◌≡◌, refl, none, some, List, [], ◌∷◌, arith}
use qoe_test_harness.Prelude.Int.{pos, pos_part}
use qoe_test_harness.Protocol.Header.{unmarshal_header}
use qoe_test_harness.Protocol.Load.{load_stat_bytes, msg_load_stat, unmarshal_load_stat}
use qoe_test_harness.Net.Pace.{new_pacer, due}
use qoe_test_harness.Net.UpLoad.{Loading, Up, write_due, send_tick}
use qoe_test_harness.Net.UpLoad.Reports.{reports, last_rate, on_packets, on_packets_rate}
use qoe_test_harness.Net.UpLoad.Ticks.{Written, send_tick_owes_none}
use qoe_test_harness.Server.Serving.{Outlet, begin_down}
use qoe_test_harness.Server.Serving.Paced.{written_in, down_flow_bounded}
use qoe_test_harness.Examples.Fixed.{fixed}
use qoe_test_harness.Examples.Mailbox.{mailbox, client}

-- Milliseconds, as thousandths of a second, of nanoseconds.
abbrev seconds : ℕ → ℕ
seconds ns = ns / 1_000_000

-- 9.6 Mbit/s, after 5 ms.
abbrev sender : Loading
sender = record { pacer = new_pacer 0 1200 9_600_000; last_bytes = 0; last_nanos = pos 0 }

abbrev up : Up fixed seconds mailbox
up = record {
  world = record { clock = 5_000_000; sent = []; inbox = [] };
  own = record { achieved = 0; flow = some sender };
}

send_tick_owes_none_example :
    (k : ℕ) × (g : Loading) × Written fixed seconds mailbox
      (pos_part (due fixed seconds sender.pacer 5_000_000))
      k
    × ((send_tick fixed seconds mailbox up).world
        ≡ (write_due fixed seconds mailbox
            (pos_part (due fixed seconds sender.pacer 5_000_000))
            up.world).1)
    × (k
        ≡ (write_due fixed seconds mailbox
            (pos_part (due fixed seconds sender.pacer 5_000_000))
            up.world).0)
    × ((send_tick fixed seconds mailbox up).own.flow ≡ some g)
    × (due fixed seconds g.pacer 5_000_000 ≡ pos 0)
unfolding new_pacer
send_tick_owes_none_example =
    send_tick_owes_none fixed seconds mailbox up sender refl (omega arith) (omega arith)

-- A report at a server time in nanoseconds.
abbrev report : ℕ → ℕ → List ℕ
report bytes nanos = load_stat_bytes (record {
  header = record { type = msg_load_stat; session = 0; seq = 0 };
  bytes_recv = bytes;
  t_server_nanos = pos nanos;
})

-- Two seconds and 5000 bytes apart, with a packet between them that is no report.
abbrev heard : List (List ℕ)
heard = report 1000 1_000_000_000 ∷ (0 ∷ []) ∷ report 6000 3_000_000_000 ∷ []

heard_rate : last_rate fixed seconds 0 (reports fixed seconds heard) ≡ 20_000
unfolding unmarshal_load_stat unmarshal_header
heard_rate = refl

on_packets_rate_example :
    (on_packets fixed seconds up.own heard).achieved
    ≡ last_rate fixed seconds 0 (reports fixed seconds heard)
unfolding new_pacer
on_packets_rate_example = on_packets_rate fixed seconds heard up.own sender refl refl

-- Every write is taken; the world is the clock.
abbrev outlet : Outlet
outlet = record { World = ℕ; now = λ w. w; write_to = λ b tos to w. (none, w) }

-- Ticks after 5 and 6 ms at 9.6 Mbit/s.
down_flow_bounded_example :
    written_in fixed seconds outlet (begin_down client 9_600_000 1 0) (5_000_000 ∷ 6_000_000 ∷ [])
    ≤ 6
unfolding begin_down new_pacer
down_flow_bounded_example =
    down_flow_bounded fixed seconds outlet client 9_600_000 1 0 6 (5_000_000 ∷ 6_000_000 ∷ [])
      (omega arith, (omega arith, tt)) (omega arith)
