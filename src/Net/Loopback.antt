-- ===== src/Net/Loopback.antt =====
-- core/net/loopback.go: the simulated path. `clock` is the fake clock of core/clock that the path
-- sets; times and durations are nanoseconds and not negative.
pub mod Delivery
pub mod Simulator
use qoe_test_harness.Prelude.{
  ℕ, ◌+◌, ◌*◌, ◌/◌, ◌%◌, Bool, true, false, not, ◌&&◌, List, [], ◌∷◌, ◌++◌, Result, ok, err, ltb,
  ◌==◌, if◌then◌else◌,
}
use qoe_test_harness.Prelude.Int.{pos}
use qoe_test_harness.Net.Conn.{not_ect, Probe, Echo}

pub data NoEcho : Type 0 where
  no_echo : NoEcho

-- A jitter step or a drop period that is not positive counts as 0.
pub record LoopbackConfig : Type 0 where
  pub base_rtt : ℕ
  pub ll_queue_delay : ℕ
  pub classic_queue_delay : ℕ
  pub jitter_step_ms : ℕ
  pub drop_every : ℕ
  pub bleach : Bool
  pub ce_when_loaded : Bool
  pub max_achievable_bps : ℕ

pub record Loopback : Type 0 where
  pub clock : ℕ
  pub cfg : LoopbackConfig
  pub loaded : Bool
  pub bps : ℕ
  pub pending : List Echo

unfoldable pub new_loopback : ℕ → LoopbackConfig → Loopback
new_loopback clock cfg = record { clock = clock; cfg = cfg; loaded = false; bps = 0; pending = [] }

-- The ECT(1) bit is the lowest one.
unfoldable pub is_ll : ℕ → Bool
is_ll m = not (m % 2 == 0)

abbrev pub delay : Loopback → Probe → ℕ
delay l p =
    l.cfg.base_rtt
    + (if l.loaded
        then (if is_ll p.marking then l.cfg.ll_queue_delay else l.cfg.classic_queue_delay)
        else 0)
    + (p.seq % 5) * l.cfg.jitter_step_ms * 1_000_000

unfoldable pub send_probe : Loopback → Probe → Loopback
send_probe l p =
    if not (l.cfg.drop_every == 0) && ((p.seq % l.cfg.drop_every) == 0)
    then l
    else let echo : Echo = record {
      seq = p.seq;
      sent_at = pos p.sent_at;
      recv_at = p.sent_at + delay l p;
      server_recv_at = pos (p.sent_at + delay l p / 2);
      tos_observed = if l.cfg.bleach then not_ect else p.marking;
      ce_seen = l.loaded && l.cfg.ce_when_loaded && is_ll p.marking;
      down_tos_observed = 0;
      down_ce = false;
    } in
      record l { pending = l.pending ++ (echo ∷ []) }

-- sort.SliceStable by arrival, by insertion: an echo goes before those that arrive later than it or at
-- the same time, which stood behind it.
abbrev pub insert_echo : Echo → List Echo → List Echo
insert_echo e [] = e ∷ []
insert_echo e (x ∷ xs) =
    let rest = insert_echo e xs in if ltb x.recv_at e.recv_at then x ∷ rest else e ∷ x ∷ xs

abbrev pub sort_echoes : List Echo → List Echo
sort_echoes [] = []
sort_echoes (x ∷ xs) = insert_echo x (sort_echoes xs)

unfoldable pub recv_echo : Loopback → Result NoEcho (Echo × Loopback)
recv_echo l = elim (sort_echoes l.pending) [
  | [] ↦ err no_echo
  | e ∷ rest ↦ ok (e, record l { clock = e.recv_at; pending = rest })
]

unfoldable pub set_rate_bps : Loopback → ℕ → Loopback
set_rate_bps l bps = record l { bps = bps; loaded = ltb 0 bps }

unfoldable pub achieved_bps : Loopback → ℕ
achieved_bps l =
    if ltb 0 l.cfg.max_achievable_bps && ltb l.cfg.max_achievable_bps l.bps
    then l.cfg.max_achievable_bps
    else l.bps

unfoldable pub stop : Loopback → Loopback
stop l = record l { bps = 0; loaded = false }
