-- ===== src/Net/LoadFlow/Steady.antt =====
-- Sockets and load flows that work over the simulated path.
use Prim.Native.String.{String}
use qoe_test_harness.Prelude.{ℕ, ◌≡◌, refl, Option, none, [], Result, ok}
use qoe_test_harness.Prelude.Floats.{Float64}
use qoe_test_harness.Prelude.Calls.{M, Runs, Ends}
use qoe_test_harness.Net.Loopback.{Loopback}
use qoe_test_harness.Net.Loopback.Simulator.{simulator}
use qoe_test_harness.Net.Seams.{Failure}
use qoe_test_harness.Net.LoadFlow.{LoadFlow, UpFlow, DownFlow, Sockets, fatal, opened}
use qoe_test_harness.Batch.{RunError, attempt}

-- A flow whose calls succeed, and leave no echo pending.
pub record Steady {Marked : Type 0} (flow : LoadFlow Loopback Marked) : Type 0 where
  pub set_rate_works :
      (bps : ℕ) (l : Loopback)
      → l.pending ≡ []
      → (l' : Loopback) × (flow.set_rate_bps bps l ≡ (none, l')) × (l'.pending ≡ [])
  pub stop_works : (l : Loopback) → l.pending ≡ [] → (flow.stop l).pending ≡ []
  pub close_works : (l : Loopback) → l.pending ≡ [] → (flow.close l).pending ≡ []

abbrev pub UpMarks : UpFlow Loopback → Type 0
UpMarks flow =
    (marking : ℕ) (l : Loopback)
    → l.pending ≡ []
    → (l' : Loopback) × (flow.set_marking marking l ≡ (none, l')) × (l'.pending ≡ [])

abbrev pub DownMarks : DownFlow Loopback → Type 0
DownMarks flow =
    (marking : ℕ) (l : Loopback) → l.pending ≡ [] → (flow.set_marking marking l).pending ≡ []

abbrev pub DialWorks :
    {Marked : Type 0}
    → (LoadFlow Loopback Marked → Type 0)
    → (Loopback → Result Failure (LoadFlow Loopback Marked) × Loopback)
    → Type 0
DialWorks {Marked} Marks dial =
    (l : Loopback)
    → l.pending ≡ []
    → (flow : LoadFlow Loopback Marked) × (l' : Loopback) × (dial l ≡ (ok flow, l'))
      × (l'.pending ≡ [])
      × Steady flow
      × Marks flow

-- Sockets that are opened, and leave no echo pending. The handshake may fail.
pub record Reliable (sockets : Sockets Loopback) : Type 0 where
  pub dial_works :
      (l : Loopback)
      → l.pending ≡ []
      → (l' : Loopback) × (sockets.dial l ≡ (none, l')) × (l'.pending ≡ [])
  pub handshake_works :
      (session : ℕ) (l : Loopback) → l.pending ≡ [] → (sockets.handshake session l).1.pending ≡ []
  pub dial_load_works : DialWorks UpMarks sockets.dial_load
  pub dial_down_load_works : (session : ℕ) → DialWorks DownMarks (sockets.dial_down_load session)

module _ (fl : Float64) where
  pub attempt-Runs :
      (call : Loopback → Option Failure × Loopback) (l l' : Loopback)
      → call l ≡ (none, l')
      → Runs (attempt fl simulator call) l tt l'
  attempt-Runs call l l' e = rw (attempt, e) refl

  pub fatal-Runs :
      {A : Type 0} (text : String) (m : M RunError Loopback A) (l : Loopback) (a : A)
      (l' : Loopback)
      → Runs m l a l'
      → Runs (fatal text m) l a l'
  fatal-Runs text m l a l' e = rw (fatal, e) refl

  pub opened-Runs :
      {A : Type 0} (call : Loopback → Result Failure A × Loopback) (l : Loopback) (a : A)
      (l' : Loopback)
      → call l ≡ (ok a, l')
      → Runs (opened call) l a l'
  opened-Runs call l a l' e = rw (opened, e) refl

  pub fatal-Ends :
      {A : Type 0} {Q : A → Loopback → Type 0} (text : String) (m : M RunError Loopback A)
      (l : Loopback)
      → Ends Q m l
      → Ends Q (fatal text m) l
  fatal-Ends text m l e = record {
    value = e.value;
    after = e.after;
    ends = fatal-Runs text m l e.value e.after e.ends;
    has = e.has;
  }
