-- ===== src/Net/Loopback/Simulator.antt =====
-- The simulated path as the surroundings of a run: core/net/loopback.go's PacketConn and
-- LoadController on the clock that core/clock's Fake keeps.
use qoe_test_harness.Prelude.{ℕ, ◌+◌, none, ok, err}
use qoe_test_harness.Net.Seams.{echo, no_more, Seams}
use qoe_test_harness.Net.Loopback.{
  Loopback, send_probe, recv_echo, set_rate_bps, achieved_bps, stop,
}

-- Fake's Now and Sleep.
abbrev pub now : Loopback → ℕ
now l = l.clock

abbrev pub sleep : ℕ → Loopback → Loopback
sleep d l = record l { clock = l.clock + d }

abbrev pub simulator : Seams
simulator = record {
  World = Loopback;
  now = now;
  sleep = sleep;
  send_probe = λ p l. (none, send_probe l p);
  recv_echo = λ l. elim (recv_echo l) [ ok (e, l') ↦ (echo e, l') | err x ↦ (no_more, l) ];
  set_rate_bps = λ bps l. (none, set_rate_bps l bps);
  achieved_bps = achieved_bps;
  stop = stop;
}
