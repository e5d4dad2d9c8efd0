-- ===== src/Examples/Stores.antt =====
-- storage/store.go and core/net/pace.go at concrete values.
use Prim.Native.String.{String}
use qoe_test_harness.Prelude.{
  ℕ, ◌/◌, ◌≡◌, ◌==◌, refl, true, none, List, [], ◌∷◌, if◌then◌else◌, subst, sym,
}
use qoe_test_harness.Prelude.Int.{pos}
use qoe_test_harness.Prelude.Maps.{lookup, text_key}
use qoe_test_harness.Compute.Verdict.{pass}
use qoe_test_harness.Report.{RunReport, valid}
use qoe_test_harness.Storage.Postgres.{built, add, list_query}
use qoe_test_harness.Storage.{Filter, limit, matches, Memory, new_memory, save, select, list}
use qoe_test_harness.Storage.Listing.{Within, here, there, NotNewer, Sorts}
use qoe_test_harness.Storage.Contract.{Runs, no_runs, with_run, Lists}
use qoe_test_harness.Storage.Held.{Holds, memory_refines}
use qoe_test_harness.Net.Pace.{Pacer, due}
use qoe_test_harness.Examples.Fixed.{fixed}

-- The run `id` that started at `start`.
abbrev pub a_run : String → ℕ → RunReport fixed
a_run id start = record {
  schema = pos 1;
  meta = record {
    run_id = id;
    started_at_unix_ms = pos start;
    isp = "north";
    region = "";
    device_class = "cli";
    software_version = "";
    provisioned_down_bps = 0;
    provisioned_up_bps = 0;
  };
  result = record { version = 1; verdict = pass; sub_results = []; caveats = [] };
  telemetry = record {
    base_rtt_ms = 0;
    marking_survival = 0;
    capacity_achieved_bps = 0;
    overshoot_achieved_bps = 0;
    down_ll = none;
    down_classic = none;
    up_ll = none;
    up_classic = none;
  };
}

a_run-valid : valid fixed (a_run "a" 10) ≡ true
unfolding valid
a_run-valid = refl

abbrev two_runs : Memory fixed
two_runs = record { runs = ("b", a_run "b" 20) ∷ ("a", a_run "a" 10) ∷ [] }

abbrev every : Filter
every = record {
  isp = "north";
  region = "";
  device_class = "";
  verdict = "";
  since_unix_ms = pos 0;
  max_results = pos 1;
}

abbrev unchanged : List (RunReport fixed) → List (RunReport fixed)
unchanged xs = xs

two_runs_listed : list fixed unchanged two_runs every ≡ a_run "b" 20 ∷ []
unfolding list select matches limit
two_runs_listed = refl

only_one : (x y : RunReport fixed) → Within x (y ∷ []) → x ≡ y
only_one x y here = refl
only_one x y (there w) = elim w [ ]

two_runs-Sorts :
    Sorts fixed (select fixed every two_runs.runs) (unchanged (select fixed every two_runs.runs))
unfolding select matches
two_runs-Sorts = record {
  same_elements = λ r w. w;
  all_elements = λ r w. w;
  same_counts = λ test. refl;
  in_order = (
    (λ y w. subst (NotNewer fixed (a_run "b" 20)) (sym (only_one y (a_run "a" 10) w)) refl),
    ((λ y w. elim w [ ]), tt),
  );
}

abbrev held : Runs fixed
held id = lookup id two_runs.runs

two_runs-Holds : Holds fixed two_runs held
unfolding lookup
two_runs-Holds = record { keyed = (refl, refl, (refl, refl, tt)); same = λ id. refl }

memory_refines_example :
    Holds fixed (new_memory fixed) (no_runs fixed)
    × Holds fixed (save fixed two_runs (a_run "a" 30)) (with_run fixed (a_run "a" 30) held)
    × Lists fixed held every (list fixed unchanged two_runs every)
memory_refines_example =
    memory_refines fixed unchanged two_runs held (a_run "a" 30) every two_runs-Sorts two_runs-Holds

-- Milliseconds, as thousandths of a second, of nanoseconds.
abbrev seconds : ℕ → ℕ
seconds ns = ns / 1_000_000

-- Packets of 1200 bytes at 9.6 Mbit/s, after 5 ms.
abbrev a_pacer : Pacer
a_pacer = record { start = 0; bytes_per_pkt = 1200; rate_bps = 9_600_000; sent = 2 }

three_due : due fixed seconds a_pacer 5_000_000 ≡ pos 3
unfolding due
three_due = refl

-- The runs of one provider since a time.
abbrev asked : Filter
asked = record {
  isp = "Acme";
  region = "";
  device_class = "";
  verdict = "fail";
  since_unix_ms = pos 7;
  max_results = pos 0;
}

abbrev number : ℕ → String
number n = if n == 1 then "1" else if n == 2 then "2" else if n == 3 then "3" else "4"

asked_query :
    (list_query number asked).0
    ≡ "SELECT payload FROM runs WHERE isp = $1 AND verdict = $2 AND started_at_ms >= $3 ORDER BY started_at_ms DESC LIMIT $4"
unfolding list_query built add
asked_query = refl
