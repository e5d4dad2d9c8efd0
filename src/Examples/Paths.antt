-- ===== src/Examples/Paths.antt =====
-- core/net/loopback.go at a loaded path.
use qoe_test_harness.Prelude.{count, ◌≡◌, ◌⊎◌, refl, Bool, true, false, [], ◌∷◌, ok, err, ◌>>=◌}
use qoe_test_harness.Net.Conn.{ll_mark, not_ect, Echo}
use qoe_test_harness.Net.Loopback.{
  Loopback, LoopbackConfig, no_echo, new_loopback, is_ll, send_probe, recv_echo, set_rate_bps,
  achieved_bps, stop,
}
use qoe_test_harness.Net.Loopback.Delivery.{NoneBefore, recv_echo_cases}

abbrev path : LoopbackConfig
path = record {
  base_rtt = 10_000_000;
  ll_queue_delay = 1_000_000;
  classic_queue_delay = 80_000_000;
  jitter_step_ms = 0;
  drop_every = 4;
  bleach = false;
  ce_when_loaded = true;
  max_achievable_bps = 500;
}

-- Under load, a classic probe, a low-latency one right behind it, and one that is dropped.
abbrev sent : Loopback
sent =
    send_probe
      (send_probe
        (send_probe (set_rate_bps (new_loopback 0 path) 900)
          (record { seq = 1; sent_at = 0; marking = not_ect }))
        (record { seq = 2; sent_at = 1000; marking = ll_mark }))
      (record { seq = 4; sent_at = 2000; marking = ll_mark })

overtaken :
    (do (e, l) ← recv_echo sent; (f, m) ← recv_echo l; ok (e.seq ∷ f.seq ∷ m.clock ∷ []))
    ≡ ok (2 ∷ 1 ∷ 90_000_000 ∷ [])
unfolding recv_echo send_probe set_rate_bps new_loopback is_ll
overtaken = refl

capped : (achieved_bps sent ≡ 500) × (achieved_bps (stop sent) ≡ 0)
unfolding achieved_bps stop send_probe set_rate_bps new_loopback
capped = (refl, refl)

recv_echo_cases_example :
    ((sent.pending ≡ []) × (recv_echo sent ≡ err no_echo))
    ⊎ ((e : Echo) × (l' : Loopback) × (recv_echo sent ≡ ok (e, l'))
        × NoneBefore e.recv_at l'.pending
        × (l'.clock ≡ e.recv_at)
        × ((test : Echo → Bool) → count test (e ∷ l'.pending) ≡ count test sent.pending))
recv_echo_cases_example = recv_echo_cases sent
