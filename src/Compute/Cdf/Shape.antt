-- ===== src/Compute/Cdf/Shape.antt =====
-- The cumulative distribution climbs from point to point and ends at 1.
use native.Mathlib.Nat.{zero-add, add-zero, add_assoc}
use qoe_test_harness.Prelude.{
  ℕ, ◌+◌, ◌^◌, ◌<◌, ◌≤◌, ◌≡◌, refl, sym, ap, ◌∙◌, some, List, [], ◌∷◌, map, ok, length, ltb,
  if◌then◌else◌, arith, Bool-cases, inl, inr, ltb→lt, not_zero,
}
use qoe_test_harness.Prelude.Floats.{Float64, Rounded, zero_f, one_f}
use qoe_test_harness.Compute.Histogram.{Histogram, at, wrap, total, sum_from}
use qoe_test_harness.Compute.Histogram.Search.{Ascending, at_inside}
use qoe_test_harness.Compute.Histogram.Counts.{IsHistogram, sum, sum_from-eq}
use qoe_test_harness.Compute.Cdf.{CdfPoint, cdf_loop, cdf}

module _ (fl : Float64) where
  open fl use {F, div, le, of_ℕ}

  -- What is plotted for bin `i`: its upper edge, or its lower edge if it is the last bin.
  abbrev pub IsUpperEdge : List F → ℕ → F → Type 0
  IsUpperEdge edges i ms =
      if ltb (i + 1) (length edges) then at edges (i + 1) ≡ ok ms else at edges i ≡ ok ms

  -- The points of bins `i`, `i + 1`, …, when `cum` samples lie below: the abscissa is the bin's
  -- upper edge, the ordinate the fraction of samples in this bin and those before.
  pub data Points (edges : List F) (t : ℕ) : List ℕ → ℕ → ℕ → List (CdfPoint fl) → Type 0 where
    done : {i cum : ℕ} → Points edges t [] i cum []
    point :
        {c i cum : ℕ} {cs : List ℕ} {rest : List (CdfPoint fl)} (ms : F)
        → IsUpperEdge edges i ms
        → Points edges t cs (i + 1) (cum + c) rest
        → Points edges t
            (c ∷ cs)
            i
            cum
            (record { ms = ms; p = div (of_ℕ (cum + c)) (of_ℕ t) } ∷ rest)

  abbrev pub ordinates : List (CdfPoint fl) → List F
  ordinates = map (λ x. x.p)

  abbrev pub last_or : F → List F → F
  last_or d [] = d
  last_or d (x ∷ xs) = last_or x xs

  abbrev UpperRead : List F → ℕ → F → F → Type 0
  UpperRead edges i lower ms =
      (at edges i ≡ ok lower)
      × ((if ltb (i + 1) (length edges) then at edges (i + 1) else ok lower) ≡ ok ms)
      × IsUpperEdge edges i ms

  upper_read :
      (edges : List F) (i : ℕ)
      → i < length edges
      → (lower : F) × (ms : F) × UpperRead edges i lower ms
  upper_read edges i h =
      let (lower, l) = at_inside edges i h in
      elim (Bool-cases (ltb (i + 1) (length edges))) [
        | inl more ↦
            let (hi, u) = at_inside edges (i + 1) (ltb→lt (i + 1) (length edges) more) in
            (lower, hi, (l, rw more u, rw more u))
        | inr last ↦ (lower, lower, (l, rw last refl, rw last l))
      ]

  cdf_loop-Points :
      (edges : List F) (t : ℕ) (cs : List ℕ) (i cum : ℕ)
      → i + length cs ≡ length edges
      → cum + sum cs < 2 ^ 64
      → (pts : List (CdfPoint fl)) × (cdf_loop fl edges t cs i cum ≡ ok pts)
        × Points edges t cs i cum pts
  unfolding cdf_loop
  cdf_loop-Points edges t [] i cum n b = ([], refl, done)
  cdf_loop-Points edges t (c ∷ cs) i cum n b =
      let (lower, ms, (l, u, is_upper)) = upper_read edges i (omega arith) in
      let (rest, r, rest_points) =
        cdf_loop-Points edges t cs (i + 1) (cum + c) (omega arith) (omega arith) in
      let exact : wrap (cum + c) ≡ cum + c = omega arith in
      (
        record { ms = ms; p = div (of_ℕ (cum + c)) (of_ℕ t) } ∷ rest,
        rw l (rw u (rw exact (rw r refl))),
        point ms is_upper rest_points,
      )

module _ (fl : Float64) (rounded : Rounded fl) where
  open fl use {F, div, le, of_ℕ}

  Points-Ascending :
      (edges : List F) (t : ℕ) (cs : List ℕ) (i cum : ℕ) (pts : List (CdfPoint fl))
      → 0 < t
      → t < 2 ^ 64
      → cum + sum cs ≤ t
      → Points fl edges t cs i cum pts
      → Ascending fl (ordinates fl pts)
  Points-Ascending edges t cs i cum pts p q b done = tt
  Points-Ascending edges t cs i cum pts p q b (point ms u done) = tt
  Points-Ascending edges t cs i cum pts p q b (point {c} ms u (point {c = d} ms' u' rest)) = (
    rounded.div_mono (cum + c) (cum + c + d) t (omega arith) p (omega arith) q,
    Points-Ascending edges t _ (i + 1) (cum + c) _ p q (omega arith) (point ms' u' rest),
  )

  last-Points :
      (edges : List F) (t : ℕ) (cs : List ℕ) (i cum : ℕ) (pts : List (CdfPoint fl))
      → Points fl edges t cs i cum pts
      → last_or fl (div (of_ℕ cum) (of_ℕ t)) (ordinates fl pts) ≡ div (of_ℕ (cum + sum cs)) (of_ℕ t)
  last-Points edges t cs i cum pts done = ap (λ n. div (of_ℕ n) (of_ℕ t)) (sym (add-zero cum))
  last-Points edges t cs i cum pts (point {c} {cs = more} {rest} ms u r) =
      last-Points edges t more (i + 1) (cum + c) rest r
      ∙ ap (λ n. div (of_ℕ n) (of_ℕ t)) (add_assoc cum c (sum more))

  last-any :
      (edges : List F) (t : ℕ) (cs : List ℕ) (i cum : ℕ) (pts : List (CdfPoint fl)) (d e : F)
      → Points fl edges t cs i cum pts
      → 0 < length cs
      → last_or fl d (ordinates fl pts) ≡ last_or fl e (ordinates fl pts)
  last-any edges t cs i cum pts d e done h = absurd (omega arith)
  last-any edges t cs i cum pts d e (point ms u r) h = refl

  -- On a well-formed histogram with samples and no overflowing total, `cdf` returns a point for each
  -- bin: at the bin's upper edge (for the last bin its lower edge) the fraction of samples in the
  -- bins up to this one. The fractions never fall, and the last one is 1.
  pub cdf_climbs :
      (h : Histogram fl)
      → IsHistogram fl h
      → sum h.counts < 2 ^ 64
      → 0 < sum h.counts
      → (pts : List (CdfPoint fl)) × (cdf fl h ≡ ok (some pts))
        × Points fl h.edges (sum h.counts) h.counts 0 0 pts
        × Ascending fl (ordinates fl pts)
        × (last_or fl (zero_f fl) (ordinates fl pts) ≡ one_f fl)
  unfolding cdf total
  cdf_climbs h w b p =
      let (pts, e, r) =
        cdf_loop-Points fl h.edges (sum h.counts) h.counts 0 0 (omega (arith, w.same_length))
          (omega arith) in
      let t : sum_from 0 h.counts ≡ sum h.counts =
        omega (arith, sum_from-eq 0 h.counts (omega arith)) in
      (
        pts,
        rw t (rw (not_zero (sum h.counts) p) (rw e refl)),
        r,
        Points-Ascending h.edges (sum h.counts) h.counts 0 0 pts p b (omega arith) r,
        last-any h.edges (sum h.counts) h.counts 0 0 pts (zero_f fl) _ r
              (omega (arith, w.same_length, w.some_edge))
            ∙ last-Points h.edges (sum h.counts) h.counts 0 0 pts r
            ∙ ap (λ n. div (of_ℕ n) (of_ℕ (sum h.counts))) (zero-add (sum h.counts))
            ∙ rounded.div_self (sum h.counts) p b,
      )
