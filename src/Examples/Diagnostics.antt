-- ===== src/Examples/Diagnostics.antt =====
-- The diagnostic of qoe-cli and the scenarios of qoe-latency over the simulated path, with a handshake
-- that fails.
use qoe_test_harness.Prelude.{true, List, refl, none, some, ok, arith}
use qoe_test_harness.Prelude.Calls.{Runs}
use qoe_test_harness.Net.Loopback.{Loopback, new_loopback, set_rate_bps, achieved_bps, stop}
use qoe_test_harness.Net.Loopback.Simulator.{simulator}
use qoe_test_harness.Net.LoadFlow.{UpFlow, DownFlow, Sockets}
use qoe_test_harness.Cli.Diagnostic.{Flags, Diagnosis, diagnose}
use qoe_test_harness.Net.LoadFlow.Steady.{Steady, Reliable}
use qoe_test_harness.Cli.Returns.{Shows, diagnose_returns}
use qoe_test_harness.Latency.{Scenario}
use qoe_test_harness.Latency.Scenarios as Scenarios
use qoe_test_harness.Latency.Scenarios.{measure}
use qoe_test_harness.Latency.Order.{InOrder, measure_returns}
use qoe_test_harness.Examples.Fixed.{fixed, fixed-Ordered, fixed-Rounded}
use qoe_test_harness.Examples.Runs.{text, sort, length-sort, constant_in_range, link}

abbrev up_flow : UpFlow Loopback
up_flow = record {
  set_marking = λ m l. (none, l);
  set_rate_bps = λ bps l. (none, set_rate_bps l bps);
  achieved_bps = achieved_bps;
  stop = stop;
  close = λ l. l;
}

abbrev down_flow : DownFlow Loopback
down_flow = record {
  set_marking = λ m l. l;
  set_rate_bps = λ bps l. (none, set_rate_bps l bps);
  achieved_bps = achieved_bps;
  stop = stop;
  close = λ l. l;
}

abbrev sockets : Sockets Loopback
sockets = record {
  dial = λ l. (none, l);
  handshake = λ session l. (some "timeout", l);
  close = λ l. l;
  dial_load = λ l. (ok up_flow, l);
  dial_down_load = λ session l. (ok down_flow, l);
}

up_flow-Steady : Steady up_flow
unfolding set_rate_bps stop
up_flow-Steady = record {
  set_rate_works = λ bps l idle. (set_rate_bps l bps, refl, idle);
  stop_works = λ l idle. idle;
  close_works = λ l idle. idle;
}

down_flow-Steady : Steady down_flow
unfolding set_rate_bps stop
down_flow-Steady = record {
  set_rate_works = λ bps l idle. (set_rate_bps l bps, refl, idle);
  stop_works = λ l idle. idle;
  close_works = λ l idle. idle;
}

sockets-Reliable : Reliable sockets
sockets-Reliable = record {
  dial_works = λ l idle. (l, refl, idle);
  handshake_works = λ session l idle. idle;
  dial_load_works = λ l idle. (up_flow, l, refl, idle, up_flow-Steady, λ m l idle. (l, refl, idle));
  dial_down_load_works =
      λ session l idle. (down_flow, l, refl, idle, down_flow-Steady, λ m l idle. idle);
}

abbrev flags : Flags
flags = record { server = "192.0.2.1:4460"; probes = 3; load_mbps = 10; down_mbps = 0 }

diagnose_returns_example :
    (d : Diagnosis fixed) × (l : Loopback) × Runs
      (diagnose fixed simulator sockets sort 101 flags)
      link
      d
      l
    × Shows fixed flags d
unfolding new_loopback
diagnose_returns_example =
    diagnose_returns fixed fixed-Ordered fixed-Rounded sort length-sort constant_in_range sockets
      sockets-Reliable 101 flags link (omega arith) (omega arith) refl

abbrev latency_flags : Scenarios.Flags
latency_flags = record {
  server = "192.0.2.1:4460";
  probes = 2;
  down_mbps = 400;
  up_mbps = 45;
  settle_ms = 2000;
  ll_first = true;
}

measure_returns_example :
    (scenarios : List (Scenario fixed)) × (l : Loopback) × Runs
      (measure fixed simulator sockets sort text 5 latency_flags)
      link
      scenarios
      l
    × InOrder fixed text true scenarios
unfolding new_loopback
measure_returns_example =
    measure_returns fixed sort text length-sort constant_in_range sockets sockets-Reliable 5
      latency_flags (omega arith) link refl
