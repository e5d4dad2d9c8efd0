-- ===== src/Server/Process/Bounded.antt =====
-- What holds of a run of qoe-server.
use Prim.Native.String.{String}
use qoe_test_harness.Prelude.{
  ℕ, ◌+◌, ◌*◌, ◌≤◌, ◌≡◌, inl, inr, List, [], ◌∷◌, ◌++◌, Result, length, arith,
}
use qoe_test_harness.Net.Seams.{Failure}
use qoe_test_harness.Net.Socket.{ControlMessage}
use qoe_test_harness.Server.{Addr, Server, Datagram, listen, handle}
use qoe_test_harness.Server.Replies.{Modest, handle_replies}
use qoe_test_harness.Server.Reachability.{Reachable, started, packet, ended}
use qoe_test_harness.Server.Serving as Serving
use qoe_test_harness.Server.Serving.{
  Arrival, cancelled, no_deadline, timed_out, read_failed, serve_round, parse_tos,
}
use qoe_test_harness.Server.Process.{Event, round, flow_ended, serve}

-- The packets among the events, and their bytes.
abbrev pub packets : List Event → ℕ
packets [] = 0
packets (flow_ended df ∷ es) = packets es
packets (round (Serving.packet b oob src) now wall ∷ es) = 1 + packets es
packets (round other now wall ∷ es) = packets es

abbrev pub received : List Event → ℕ
received [] = 0
received (flow_ended df ∷ es) = received es
received (round (Serving.packet b oob src) now wall ∷ es) = length b + received es
received (round other now wall ∷ es) = received es

abbrev pub sent_bytes : List Datagram → ℕ
sent_bytes [] = 0
sent_bytes (d ∷ ds) = length d.payload + sent_bytes ds

sent_bytes-append : (xs ys : List Datagram) → sent_bytes (xs ++ ys) ≡ sent_bytes xs + sent_bytes ys
sent_bytes-append [] ys = omega arith
sent_bytes-append (x ∷ xs) ys = omega (arith, sent_bytes-append xs ys)

-- The answer to one packet, and the answers after it.
Modest-after :
    (src : Addr) (b : List ℕ) (out rest : List Datagram) (n r : ℕ)
    → Modest src b out
    → length rest ≤ n
    → sent_bytes rest ≤ 38 * n
    → sent_bytes rest ≤ r + 16 * n
    → (length (out ++ rest) ≤ 1 + n)
      × (sent_bytes (out ++ rest) ≤ 38 * (1 + n))
      × (sent_bytes (out ++ rest) ≤ (length b + r) + 16 * (1 + n))
Modest-after src b out rest n r (inl none_sent) few small bounded =
    rw none_sent (omega (arith, few), omega (arith, small), omega (arith, bounded))
Modest-after src b out rest n r (inr (d, one, to_src, short, near)) few small bounded =
    rw one (omega (arith, few), omega (arith, small, short), omega (arith, bounded, near))

module _ (addr_string : Addr → String) (hmac : List ℕ → List ℕ → List ℕ)
    (parse_control : List ℕ → Result Failure (List ControlMessage)) where
  serve-Reachable :
      (secret : List ℕ) (es : List Event) (s : Server)
      → Reachable addr_string hmac secret s
      → Reachable addr_string hmac secret (serve addr_string hmac parse_control s es).1
  unfolding serve serve_round parse_tos
  serve-Reachable secret [] s r = r
  serve-Reachable secret (flow_ended df ∷ es) s r = serve-Reachable secret es _ (ended df r)
  serve-Reachable secret (round (cancelled f) now wall ∷ es) s r = r
  serve-Reachable secret (round (no_deadline f) now wall ∷ es) s r = r
  serve-Reachable secret (round (read_failed f) now wall ∷ es) s r = r
  serve-Reachable secret (round timed_out now wall ∷ es) s r = serve-Reachable secret es s r
  serve-Reachable secret (round (Serving.packet b oob src) now wall ∷ es) s r =
      serve-Reachable secret es _ (packet b (parse_tos (parse_control oob)) src now wall r)

  serve_answers :
      (s : Server) (es : List Event)
      → (length (serve addr_string hmac parse_control s es).2 ≤ packets es)
        × (sent_bytes (serve addr_string hmac parse_control s es).2 ≤ 38 * packets es)
        × (sent_bytes (serve addr_string hmac parse_control s es).2 ≤ received es + 16 * packets es)
  unfolding serve serve_round parse_tos
  serve_answers s [] = (omega arith, omega arith, omega arith)
  serve_answers s (flow_ended df ∷ es) = serve_answers _ es
  serve_answers s (round (cancelled f) now wall ∷ es) = (omega arith, omega arith, omega arith)
  serve_answers s (round (no_deadline f) now wall ∷ es) = (omega arith, omega arith, omega arith)
  serve_answers s (round (read_failed f) now wall ∷ es) = (omega arith, omega arith, omega arith)
  serve_answers s (round timed_out now wall ∷ es) = serve_answers s es
  serve_answers s (round (Serving.packet b oob src) now wall ∷ es) =
      let tos = parse_tos (parse_control oob) in
      let (s', out) = handle addr_string hmac s b tos src now wall in
      let (few, small, bounded) = serve_answers s' es in
      Modest-after src b out (serve addr_string hmac parse_control s' es).2 (packets es)
        (received es) (handle_replies addr_string hmac s b tos src now wall) few small bounded

  -- Whatever packets, ends of flows and errors Serve comes upon after Listen, the server stays in the states that it may come into,
  -- and Serve itself sends no more datagrams than packets have arrived, at most 38 bytes for each, and in all at most the bytes
  -- received and 16 more for each packet.
  pub serve_bounded :
      (secret : List ℕ) (es : List Event)
      → Reachable addr_string hmac secret
          (serve addr_string hmac parse_control (listen secret) es).1
        × (length (serve addr_string hmac parse_control (listen secret) es).2 ≤ packets es)
        × (sent_bytes (serve addr_string hmac parse_control (listen secret) es).2 ≤ 38 * packets es)
        × (sent_bytes (serve addr_string hmac parse_control (listen secret) es).2
            ≤ received es + 16 * packets es)
  serve_bounded secret es =
      let (few, small, bounded) = serve_answers (listen secret) es in
      (serve-Reachable secret es (listen secret) started, few, small, bounded)
