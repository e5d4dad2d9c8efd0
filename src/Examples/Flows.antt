-- ===== src/Examples/Flows.antt =====
-- server/server.go at concrete packets.
use Prim.Native.String.{String}
use qoe_test_harness.Prelude.{
  ℕ, ◌≡◌, ◌⊎◌, ◌+◌, ◌++◌, refl, false, true, some, List, [], ◌∷◌, length, replicate,
}
use qoe_test_harness.Prelude.Int.{pos}
use qoe_test_harness.Prelude.Maps.{lookup, nat_key, text_key}
use qoe_test_harness.Protocol.Header.{msg_probe, msg_start, marshal_header, unmarshal_header}
use qoe_test_harness.Protocol.Handshake.{make_cookie, verify_cookie}
use qoe_test_harness.Protocol.Packet.{probe_bytes, unmarshal_probe, marshal_echo}
use qoe_test_harness.Protocol.Start.{start_bytes, unmarshal_start}
use qoe_test_harness.Net.Seams.{Failure}
use qoe_test_harness.Server.Serving as Serving
use qoe_test_harness.Server.Serving.{timed_out, read_failed}
use qoe_test_harness.Server.Process.{Event, round, flow_ended, fatal, serve, run_server}
use qoe_test_harness.Server.Process.Bounded.{packets, received, sent_bytes, serve_bounded}
use qoe_test_harness.Prelude.{ok, none, Option, ◌*◌, ◌≤◌}
use qoe_test_harness.Server.{
  Addr, Server, Datagram, DownFlow, listen, handle, echo_probe, on_start, start_down, close,
}
use qoe_test_harness.Server.Replies.{Modest, handle_replies}
use qoe_test_harness.Server.Authorised.{Authorised, handle-Authorised}
use qoe_test_harness.Server.Flows.{IsServer}
use qoe_test_harness.Server.Reachability.{
  Reachable, started, packet, Reachable-IsServer, one_live_flow,
}

abbrev plain_mac : List ℕ → List ℕ → List ℕ
plain_mac key message = message ++ (key ++ replicate 8 0)

abbrev name_of : Addr → String
name_of a = "198.51.100.7:40000"

abbrev secret : List ℕ
secret = 5 ∷ []

abbrev client : Addr
client = record { ip = 198 ∷ 51 ∷ 100 ∷ 7 ∷ []; port = 40_000 }

abbrev a_probe : List ℕ
a_probe = probe_bytes (record {
  header = record { type = msg_probe; session = 77; seq = 3 };
  t_send_nanos = pos 9;
  tos_intended = 1;
})

-- An echo is nine bytes longer than the probe that it answers.
echo_length_test :
    (d : Datagram) × (echo_probe a_probe 1 client (pos 0) ≡ d ∷ [])
    × (length d.payload ≡ length a_probe + 9)
unfolding echo_probe unmarshal_probe unmarshal_header marshal_echo marshal_header
echo_length_test = (_, refl, refl)

handle_replies_example :
    Modest client a_probe (handle name_of plain_mac (listen secret) a_probe 1 client 0 (pos 0)).1
handle_replies_example = handle_replies name_of plain_mac (listen secret) a_probe 1 client 0 (pos 0)

-- What `make_cookie` gives for session 77 and the client's address.
abbrev plain_cookie : List ℕ
plain_cookie = 0 ∷ 0 ∷ 0 ∷ 0 ∷ 0 ∷ 0 ∷ 0 ∷ 77 ∷ 198 ∷ 51 ∷ 100 ∷ 7 ∷ 5 ∷ 0 ∷ 0 ∷ 0 ∷ []

-- A start request for 2 Gbit/s.
abbrev a_start : List ℕ
a_start = start_bytes (record {
  header = record { type = msg_start; session = 77; seq = 0 };
  cookie = plain_cookie;
  rate_bps = 2_000_000_000;
  duration_ms = 60_000;
  marking = 0;
})

abbrev a_flow : DownFlow
a_flow = record {
  src = client;
  rate = 1_000_000_000;
  lifetime = 30_000_000_000;
  marking = 0;
  cancelled = false;
}

abbrev started_server : Server
started_server = (handle name_of plain_mac (listen secret) a_start 0 client 0 (pos 0)).0

flow_started : lookup 0 started_server.flows ≡ some a_flow
unfolding handle listen on_start unmarshal_header unmarshal_start verify_cookie make_cookie
    start_down lookup
flow_started = refl

handle-Authorised_example :
    ((g : DownFlow) × (lookup 0 (listen secret).flows ≡ some g))
    ⊎ Authorised name_of plain_mac (listen secret) a_start client a_flow
handle-Authorised_example =
    handle-Authorised name_of plain_mac (listen secret) a_start client 0 0 (pos 0) 0 a_flow
      flow_started

started-Reachable : Reachable name_of plain_mac secret started_server
started-Reachable = packet a_start 0 client 0 (pos 0) started

Reachable-IsServer_example : IsServer name_of started_server
Reachable-IsServer_example =
    Reachable-IsServer name_of plain_mac secret started_server started-Reachable

one_live_flow_example :
    ((i j : ℕ) (f g : DownFlow)
      → lookup i started_server.flows ≡ some f
      → lookup j started_server.flows ≡ some g
      → f.cancelled ≡ false
      → g.cancelled ≡ false
      → name_of f.src ≡ name_of g.src
      → i ≡ j)
    × ((i : ℕ) (f : DownFlow)
        → lookup i (close name_of started_server).flows ≡ some f
        → f.cancelled ≡ true)
one_live_flow_example = one_live_flow name_of plain_mac secret started_server started-Reachable

-- A probe, a timeout, the start of a flow and its end, and a failed read.
abbrev some_events : List Event
some_events =
    round (Serving.packet a_probe [] client) 0 (pos 0)
    ∷ round timed_out 1 (pos 1)
    ∷ round (Serving.packet a_start [] client) 2 (pos 2)
    ∷ flow_ended 0
    ∷ round (read_failed "closed") 3 (pos 3)
    ∷ []

abbrev served : Option Failure × Server × List Datagram
served = serve name_of plain_mac (λ oob. ok []) (listen secret) some_events

serve_bounded_example :
    Reachable name_of plain_mac secret served.1
    × (length served.2 ≤ packets some_events)
    × (sent_bytes served.2 ≤ 38 * packets some_events)
    × (sent_bytes served.2 ≤ received some_events + 16 * packets some_events)
serve_bounded_example = serve_bounded name_of plain_mac (λ oob. ok []) secret some_events

-- Without a secret, qoe-server does not start.
no_secret :
    run_server name_of plain_mac (λ oob. ok []) [] none some_events false
    ≡ fatal "--secret is required"
unfolding run_server
no_secret = refl
