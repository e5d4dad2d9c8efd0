-- ===== src/Net/UpLoad/Ticks.antt =====
-- A tick of the upstream sender.
use qoe_test_harness.Prelude.{
  ℕ, zero, suc, ◌-◌, ◌^◌, ◌<◌, ◌≡◌, refl, ap, ◌⊎◌, inl, inr, some, Option-cases, arith,
}
use qoe_test_harness.Prelude.Int.{pos, pos_part}
use qoe_test_harness.Prelude.Floats.{Float64}
use qoe_test_harness.Net.Pace.{due, target, mark_sent, due-mark_sent}
use qoe_test_harness.Net.Seams.{Failure}
use qoe_test_harness.Net.Socket.{Socket}
use qoe_test_harness.Net.UpLoad.{load_packet, Loading, Up, write_due, send_tick}

module _ (fl : Float64) (seconds : ℕ → fl.F) (socket : Socket) where
  -- Of `n` packets `k` are written: all of them, or fewer and then a write fails.
  abbrev pub Written : ℕ → ℕ → Type 0
  Written n k =
      (k ≡ n)
      ⊎ ((k < n) × (v : socket.World) × (f : Failure) × ((socket.write load_packet v).0 ≡ some f))

  write_due-Written : (n : ℕ) (w : socket.World) → Written n (write_due fl seconds socket n w).0
  unfolding write_due
  write_due-Written zero w = inl refl
  write_due-Written (suc n) w = elim (Option-cases (socket.write load_packet w).0) [
    | inr (f, failed) ↦ rw (failed, write_due) (inr (omega arith, w, f, failed))
    | inl good ↦
        rw (good, write_due)
          (elim (write_due-Written n (socket.write load_packet w).1) [
            | inl all ↦ inl (ap suc all)
            | inr (fewer, v, f, failed) ↦ inr (omega arith, v, f, failed)
          ])
  ]

  -- A tick writes the packets that are due, or fewer if a write fails. The pacer counts all of them as sent in both cases: as long
  -- as what it has sent and its target stay below 2^63 it owes no packet at that time, so that those not written are not made up.
  pub send_tick_owes_none :
      (l : Up fl seconds socket) (f : Loading)
      → l.own.flow ≡ some f
      → f.pacer.sent < 2 ^ 63
      → target fl seconds f.pacer (seconds (socket.now l.world - f.pacer.start)) < 2 ^ 63
      → (k : ℕ) × (g : Loading) × Written (pos_part (due fl seconds f.pacer (socket.now l.world))) k
        × ((send_tick fl seconds socket l).world
            ≡ (write_due fl seconds socket
                (pos_part (due fl seconds f.pacer (socket.now l.world)))
                l.world).1)
        × (k
            ≡ (write_due fl seconds socket
                (pos_part (due fl seconds f.pacer (socket.now l.world)))
                l.world).0)
        × ((send_tick fl seconds socket l).own.flow ≡ some g)
        × (due fl seconds g.pacer (socket.now l.world) ≡ pos 0)
  unfolding send_tick
  send_tick_owes_none l f running s t =
      let n = pos_part (due fl seconds f.pacer (socket.now l.world)) in
      (
        (write_due fl seconds socket n l.world).0,
        record f { pacer = mark_sent f.pacer (due fl seconds f.pacer (socket.now l.world)) },
        write_due-Written n l.world,
        rw (running, send_tick) refl,
        refl,
        rw (running, send_tick) refl,
        (due-mark_sent fl seconds f.pacer (socket.now l.world) s t).0,
      )
