-- ===== src/Latency.antt =====
-- cli/cmd/qoe-latency/main.go: probe, over any seams. `sorted` is sort.Float64s. The flags, the load
-- flows that main opens around it, and the printing are left out. Where the source ends the process
-- on an error, the model returns it.
pub mod Gathering
pub mod Classes
pub mod Scenarios
pub mod Printed
pub mod Scenes
pub mod Order
use Prim.Native.String.{String}
use qoe_test_harness.Prelude.{
  ℕ, zero, suc, ◌+◌, ◌*◌, ◌/◌, ◌%◌, Bool, List, [], ◌∷◌, ◌++◌, length, ok, err, ◌==◌, if◌then◌else◌,
}
use qoe_test_harness.Prelude.Floats.{Float64, zero_f, one_f}
use qoe_test_harness.Prelude.Calls.{M, ◌>>=◌, ◌>>◌, return}
use qoe_test_harness.Compute.Stats.{base_rtt}
use qoe_test_harness.Net.Conn.{Probe, Echo, not_ect, ll_mark}
use qoe_test_harness.Net.Seams.{echo, no_more, broken, Seams}
use qoe_test_harness.Batch.{
  RunError, failed, out_of_rounds, has_ect1, rtt_ms, attempt, ask, checked,
}

-- Odd numbers are low-latency probes.
abbrev pub odd : ℕ → Bool
odd seq = seq % 2 == 1

abbrev pub mark_of : ℕ → ℕ
mark_of seq = if odd seq then ll_mark else not_ect

-- The field DSCP of a TOS is NQB's.
abbrev pub has_nqb : ℕ → Bool
has_nqb tos = tos / 4 == 45

abbrev count_if : Bool → ℕ → ℕ
count_if b n = if b then n + 1 else n

module _ (fl : Float64) where
  open fl use {F, mul, div, of_ℕ, decimal}

  -- The type rtt.
  pub record Rtt : Type 0 where
    pub p50 : F
    pub p90 : F
    pub p99 : F
    pub max : F

  -- The type mark.
  pub record Mark : Type 0 where
    pub up_ect : F
    pub up_nqb : F
    pub up_ce : F
    pub dn_ect : F
    pub dn_nqb : F
    pub dn_ce : F

  pub record Scenario : Type 0 where
    pub name : String
    pub classic : Rtt
    pub ll : Rtt
    pub n_cl : ℕ
    pub n_ll : ℕ
    pub m : Mark

  -- What the drain loop of probe has gathered.
  pub record Gathered : Type 0 where
    pub cl : List F
    pub ll : List F
    pub up_ect : ℕ
    pub up_nqb : ℕ
    pub up_ce : ℕ
    pub dn_ect : ℕ
    pub dn_nqb : ℕ
    pub dn_ce : ℕ

  abbrev pub nothing : Gathered
  nothing = record {
    cl = [];
    ll = [];
    up_ect = 0;
    up_nqb = 0;
    up_ce = 0;
    dn_ect = 0;
    dn_nqb = 0;
    dn_ce = 0;
  }

  unfoldable pub gather : Gathered → Echo → Gathered
  gather g e =
      if odd e.seq
      then record {
        cl = g.cl;
        ll = g.ll ++ (rtt_ms fl e ∷ []);
        up_ect = count_if (has_ect1 e.tos_observed) g.up_ect;
        up_nqb = count_if (has_nqb e.tos_observed) g.up_nqb;
        up_ce = count_if e.ce_seen g.up_ce;
        dn_ect = count_if (has_ect1 e.down_tos_observed) g.dn_ect;
        dn_nqb = count_if (has_nqb e.down_tos_observed) g.dn_nqb;
        dn_ce = count_if e.down_ce g.dn_ce;
      }
      else record g { cl = g.cl ++ (rtt_ms fl e ∷ []) }

  -- The function `pct`, for `n` low-latency echoes.
  unfoldable pub percent : ℕ → ℕ → F
  percent n c = if n == 0 then zero_f fl else mul (div (of_ℕ c) (of_ℕ n)) (decimal 100 0)

  abbrev pub marks_of : ℕ → Gathered → Mark
  marks_of n g = record {
    up_ect = percent n g.up_ect;
    up_nqb = percent n g.up_nqb;
    up_ce = percent n g.up_ce;
    dn_ect = percent n g.dn_ect;
    dn_nqb = percent n g.dn_nqb;
    dn_ce = percent n g.dn_ce;
  }

  module _ (seams : Seams) where
    open seams use {World, now, send_probe, recv_echo}

    -- The sends of probe, `n` of them, the next with number `seq`.
    unfoldable pub send_classes : ℕ → ℕ → M RunError World (Unit {0})
    send_classes seq zero = return tt
    send_classes seq (suc n) = do
      t ← ask fl seams now
      attempt fl seams (send_probe (record { seq = seq; sent_at = t; marking = mark_of seq }))
      send_classes (seq + 1) n

    -- The drain loop of probe, with as many rounds as `rounds`.
    unfoldable pub drain_classes : ℕ → Gathered → M RunError World Gathered
    drain_classes zero g w = (err out_of_rounds, w)
    drain_classes (suc rounds) g w =
        let (got, w') = recv_echo w in
        elim got [
          | echo e ↦ drain_classes rounds (gather g e) w'
          | no_more ↦ (ok g, w')
          | broken f ↦ (err (failed f), w')
        ]

    module _ (sorted : List F → List F) where
      -- The function `q`.
      unfoldable pub quantiles : List F → M RunError World Rtt
      quantiles r = do
        p50 ← checked fl seams (base_rtt fl sorted r (decimal 5 1))
        p90 ← checked fl seams (base_rtt fl sorted r (decimal 9 1))
        p99 ← checked fl seams (base_rtt fl sorted r (decimal 99 2))
        max ← checked fl seams (base_rtt fl sorted r (one_f fl))
        return (record { p50 = p50; p90 = p90; p99 = p99; max = max })

      unfoldable pub probe : ℕ → String → ℕ → M RunError World Scenario
      probe rounds name n_per_class = do
        send_classes 1 (n_per_class * 2)
        g ← drain_classes rounds nothing
        classic ← quantiles g.cl
        ll ← quantiles g.ll
        return (record {
          name = name;
          classic = classic;
          ll = ll;
          n_cl = length g.cl;
          n_ll = length g.ll;
          m = marks_of (length g.ll) g;
        })
