-- ===== src/Net/Pace.antt =====
-- core/net/pace.go: the pacer and the meter. `seconds` is Duration's Seconds, of the nanoseconds that
-- the clock says have passed since the start; `Reset` and the constructors read the clock too, which is
-- `now` here. A float64 converted to uint64 is in range.
use qoe_test_harness.Prelude.{
  ℕ, ◌+◌, ◌-◌, ◌%◌, ◌^◌, ◌<◌, ◌≤◌, ◌≡◌, refl, ◌⊎◌, ◌||◌, leb, ◌==◌, if◌then◌else◌, arith,
}
use qoe_test_harness.Prelude.Int.{ℤ, pos, negsuc, pos_part}
use qoe_test_harness.Prelude.Floats.{Float64, zero_f}
use qoe_test_harness.Protocol.Bytes.{to_int64}

-- `bytes_per_pkt` is an int of the source that is not negative; `sent` is a uint64.
pub record Pacer : Type 0 where
  pub start : ℕ
  pub bytes_per_pkt : ℕ
  pub rate_bps : ℕ
  pub sent : ℕ

unfoldable pub new_pacer : ℕ → ℕ → ℕ → Pacer
new_pacer now bytes_per_pkt rate_bps = record {
  start = now;
  bytes_per_pkt = bytes_per_pkt;
  rate_bps = rate_bps;
  sent = 0;
}

unfoldable pub mark_sent : Pacer → ℤ → Pacer
mark_sent p (pos n) = record p { sent = (p.sent + n) % 2 ^ 64 }
mark_sent p (negsuc n) = p

pub record Meter : Type 0 where
  pub start : ℕ
  pub bytes : ℕ

unfoldable pub new_meter : ℕ → Meter
new_meter now = record { start = now; bytes = 0 }

unfoldable pub add_bytes : Meter → ℤ → Meter
add_bytes m (pos n) = record m { bytes = (m.bytes + n) % 2 ^ 64 }
add_bytes m (negsuc n) = m

unfoldable pub reset : Meter → ℕ → Meter
reset m now = record { start = now; bytes = 0 }

module _ (fl : Float64) (seconds : ℕ → fl.F) where
  open fl use {F, mul, div, le, of_ℕ, decimal, truncate}

  -- The packets that should have gone out after `elapsed` seconds.
  abbrev pub target : Pacer → F → ℕ
  target p elapsed =
      truncate (div (mul (div (of_ℕ p.rate_bps) (decimal 8 0)) elapsed) (of_ℕ p.bytes_per_pkt))

  unfoldable pub due : Pacer → ℕ → ℤ
  due p now =
      if p.bytes_per_pkt == 0 || p.rate_bps == 0
      then pos 0
      else if le (seconds (now - p.start)) (zero_f fl)
      then pos 0
      else if leb (target p (seconds (now - p.start))) p.sent
      then pos 0
      else to_int64 (target p (seconds (now - p.start)) - p.sent)

  unfoldable pub bps : Meter → ℕ → ℕ
  bps m now =
      if le (seconds (now - m.start)) (zero_f fl)
      then 0
      else truncate (div (mul (of_ℕ m.bytes) (decimal 8 0)) (seconds (now - m.start)))

  -- Once the packets that are due are marked as sent, no more are due at that time, and the number of
  -- packets sent is as before or, if it was below the target, the target, as long as both stay below
  -- 2^63.
  pub due-mark_sent :
      (p : Pacer) (now : ℕ)
      → p.sent < 2 ^ 63
      → target p (seconds (now - p.start)) < 2 ^ 63
      → (due (mark_sent p (due p now)) now ≡ pos 0)
        × (((mark_sent p (due p now)).sent ≡ p.sent)
            ⊎ ((p.sent < target p (seconds (now - p.start)))
                × ((mark_sent p (due p now)).sent ≡ target p (seconds (now - p.start)))))
  unfolding due mark_sent
  due-mark_sent p now s t = (ground arith, ground arith)

  -- The packets that a pacer counts at a time, on top of those sent, stay below any bound on both.
  pub due-le :
      (p : Pacer) (now b : ℕ)
      → p.sent ≤ b
      → target p (seconds (now - p.start)) ≤ b
      → b < 2 ^ 63
      → ((mark_sent p (due p now)).sent ≡ p.sent + pos_part (due p now))
        × (p.sent + pos_part (due p now) ≤ b)
  unfolding due mark_sent
  due-le p now b s t h = (ground arith, ground arith)

  -- Counting keeps the rate and the start.
  pub mark_sent-target :
      (p : Pacer) (z : ℤ) (elapsed : F)
      → (target (mark_sent p z) elapsed ≡ target p elapsed) × ((mark_sent p z).start ≡ p.start)
  unfolding mark_sent
  mark_sent-target p (pos n) elapsed = (refl, refl)
  mark_sent-target p (negsuc n) elapsed = (refl, refl)
