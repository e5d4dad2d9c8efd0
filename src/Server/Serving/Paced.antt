-- ===== src/Server/Serving/Paced.antt =====
-- How much a downstream flow sends.
use qoe_test_harness.Prelude.{
  ℕ, zero, suc, ◌+◌, ◌-◌, ◌^◌, ◌<◌, ◌≤◌, sym, ap, subst, ◌∙◌, inl, inr, List, [], ◌∷◌, All,
  Option-cases, arith,
}
use qoe_test_harness.Prelude.Int.{ℤ, pos_part}
use qoe_test_harness.Prelude.Floats.{Float64}
use qoe_test_harness.Net.Pace.{Pacer, new_pacer, target, due, mark_sent, due-le, mark_sent-target}
use qoe_test_harness.Server.{Addr}
use qoe_test_harness.Server.Serving.{
  down_packet, PacedFlow, Outlet, begin_down, write_all, down_tick,
}

module _ (fl : Float64) (seconds : ℕ → fl.F) (outlet : Outlet) where
  write_all-le :
      (n : ℕ) (f : PacedFlow) (w : outlet.World) → (write_all fl seconds outlet n f w).0 ≤ n
  unfolding write_all
  write_all-le zero f w = omega arith
  write_all-le (suc n) f w = elim (Option-cases (outlet.write_to down_packet f.tos f.to w).0) [
    | inr (e, failed) ↦ rw (failed, write_all) (omega arith)
    | inl good ↦
        rw (good, write_all)
          (omega (arith, write_all-le n f (outlet.write_to down_packet f.tos f.to w).1))
  ]

  -- The packets that a flow writes in ticks at these worlds.
  abbrev pub written_in : PacedFlow → List outlet.World → ℕ
  written_in f [] = 0
  written_in f (w ∷ ws) =
      (down_tick fl seconds outlet f w).0 + written_in (down_tick fl seconds outlet f w).1 ws

  -- The pacer's target at the time of a world.
  abbrev pub allowed : Pacer → outlet.World → ℕ
  allowed p w = target fl seconds p (seconds (outlet.now w - p.start))

  allowed_after :
      (p : Pacer) (z : ℤ) (b : ℕ) (ws : List outlet.World)
      → All (λ w. allowed p w ≤ b) ws
      → All (λ w. allowed (mark_sent p z) w ≤ b) ws
  allowed_after p z b [] a = tt
  allowed_after p z b (w ∷ ws) (a, rest) =
      let same =
        (mark_sent-target fl seconds p z (seconds (outlet.now w - (mark_sent p z).start))).0
        ∙ ap (λ s. target fl seconds p (seconds (outlet.now w - s)))
            (mark_sent-target fl seconds p z (seconds 0)).1 in
      (subst (λ t. t ≤ b) (sym same) a, allowed_after p z b ws rest)

  written_in-le :
      (ws : List outlet.World) (f : PacedFlow) (b : ℕ)
      → f.pacer.sent ≤ b
      → All (λ w. allowed f.pacer w ≤ b) ws
      → b < 2 ^ 63
      → f.pacer.sent + written_in f ws ≤ b
  unfolding down_tick
  written_in-le [] f b s a h = omega (arith, s)
  written_in-le (w ∷ ws) f b s (t, a) h =
      let z = due fl seconds f.pacer (outlet.now w) in
      let (counted, bounded) = due-le fl seconds f.pacer (outlet.now w) b s t h in
      let rest =
        written_in-le ws (record f { pacer = mark_sent f.pacer z }) b
          (omega (arith, counted, bounded)) (allowed_after f.pacer z b ws a) h in
      omega (arith, rest, counted, write_all-le (pos_part z) f w)

  -- However the writes go, a flow that has begun at a rate writes in its ticks no more packets than any bound below 2^63 on what its
  -- rate allows at the times of these ticks.
  pub down_flow_bounded :
      (src : Addr) (rate marking now b : ℕ) (ws : List outlet.World)
      → All (λ w. allowed (begin_down src rate marking now).pacer w ≤ b) ws
      → b < 2 ^ 63
      → written_in (begin_down src rate marking now) ws ≤ b
  unfolding begin_down new_pacer
  down_flow_bounded src rate marking now b ws a h =
      omega (arith, written_in-le ws (begin_down src rate marking now) b (omega arith) a h)
