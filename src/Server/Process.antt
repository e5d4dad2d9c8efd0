-- ===== src/Server/Process.antt =====
-- server/server.go: Serve as a whole, with the ends of flows between its rounds; and
-- server/cmd/qoe-server/main.go. The list of events ends while the server still serves, unless an event
-- ends the loop. A read that times out is an event with no effect.
pub mod Bounded
use Prim.Native.String.{String, ◌++◌ as ◌#◌}
use qoe_test_harness.Prelude.{
  ℕ, Bool, Option, none, some, List, [], ◌∷◌, ◌++◌, Result, ok, err, length, ◌==◌, if◌then◌else◌,
}
use qoe_test_harness.Prelude.Int.{ℤ}
use qoe_test_harness.Net.Seams.{Failure}
use qoe_test_harness.Net.Socket.{ControlMessage}
use qoe_test_harness.Server.{Addr, Server, Datagram, listen, retire, close}
use qoe_test_harness.Server.Serving.{Arrival, serve_round}

-- A round of Serve with the time and the wall clock of its packet, or the end of a flow.
pub data Event : Type 0 where
  round : Arrival → ℕ → ℤ → Event
  flow_ended : ℕ → Event

-- How qoe-server ends: with a message and exit status 1, with its deferred calls, or not yet.
pub data Outcome : Type 0 where
  fatal : String → Outcome
  stopped : Server → List Datagram → Outcome
  serving : Server → List Datagram → Outcome

module _ (addr_string : Addr → String) (hmac : List ℕ → List ℕ → List ℕ)
    (parse_control : List ℕ → Result Failure (List ControlMessage)) where
  -- What has ended the loop, the server and what it has sent.
  unfoldable pub serve : Server → List Event → Option Failure × Server × List Datagram
  serve s [] = (none, s, [])
  serve s (flow_ended df ∷ es) = serve (retire addr_string s df) es
  serve s (round a now wall ∷ es) = elim (serve_round addr_string hmac parse_control s a now wall) [
    | err f ↦ (some f, s, [])
    | ok (s', out) ↦ let (e, s'', sent) = serve s' es in (e, s'', out ++ sent)
  ]

  -- main; `listening` is the error of Listen, and `ctx_done` says that a signal has cancelled the
  -- context when Serve returns.
  unfoldable pub run_server : List ℕ → Option Failure → List Event → Bool → Outcome
  unfolding serve
  run_server secret listening events ctx_done =
      if length secret == 0 then fatal "--secret is required" else elim listening [
        | some f ↦ fatal ("listen: " # f)
        | none ↦
            let (e, s, sent) = serve (listen secret) events in
            elim e [
              | none ↦ serving s sent
              | some f ↦
                  if ctx_done then stopped (close addr_string s) sent else fatal ("serve: " # f)
            ]
      ]
