-- ===== src/Examples/Sockets.antt =====
-- core/net's clients over a socket that keeps what is written and delivers what it holds.
use Prim.Native.String.{String}
use qoe_test_harness.Prelude.{
  ℕ, ◌*◌, ◌%◌, ◌≡◌, refl, sym, Bool, true, false, none, some, List, [], ◌∷◌, Result, ok,
  if◌then◌else◌, min, replicate, ◌==◌, arith,
}
use qoe_test_harness.Prelude.Int.{pos, negsuc}
use qoe_test_harness.Prelude.Calls.{◌>>=◌, ◌>>◌, Runs}
use qoe_test_harness.Protocol.Bytes.{be}
use qoe_test_harness.Protocol.Bytes.Numbers.{be-IsByte}
use qoe_test_harness.Protocol.Header.{marshal_header}
use qoe_test_harness.Protocol.Packet.{marshal_probe, probe_bytes, echo_bytes}
use qoe_test_harness.Protocol.Handshake.{cookie_size, make_cookie}
use qoe_test_harness.Protocol.Start.{marshal_start}
use qoe_test_harness.Net.Conn.{ll_mark, Probe}
use qoe_test_harness.Net.Pace.{new_meter}
use qoe_test_harness.Net.Seams.{Failure}
use qoe_test_harness.Net.Socket.{Inbound, packet, ControlMessage, parse_recv_tos}
use qoe_test_harness.Net.Udp as Udp
use qoe_test_harness.Net.Udp.{UdpConn, Conn}
use qoe_test_harness.Net.Udp.Probing.{wire_probe, wire_echo, probe_comes_back}
use qoe_test_harness.Net.DownLoad as DownLoad
use qoe_test_harness.Net.DownLoad.{
  UdpDownLoad, Receiving, Down, down_default_duration_ms, dial_down,
}
use qoe_test_harness.Net.DownLoad.Cookie.{cookie_packet, hello_packet, handshake_granted}
use qoe_test_harness.Net.DownLoad.Granted.{start_packet, measuring, Granted, set_rate_honoured}
use qoe_test_harness.Net.DownLoad.Ended.{stop_packet, stop_honoured}
use qoe_test_harness.Server.{
  Addr, Server, listen, millisecond, max_down_rate_bps, echo_probe, handle,
}
use qoe_test_harness.Server.Effects.{Starts, Stops}
use qoe_test_harness.Examples.Mailbox.{Mail, mailbox, client}

abbrev one_tos : List ℕ → Result Failure (List ControlMessage)
one_tos oob = ok (record { level = 0; type = 1; data_bytes = oob } ∷ [])

abbrev addr_text : Addr → String
addr_text a = if a.port == 4000 then "client" else "other"

abbrev probe : Probe
probe = record { seq = 3; sent_at = 1_000_000; marking = ll_mark }

abbrev conn : List Inbound → Conn mailbox
conn inbox = record {
  world = record { clock = 2_000_000; sent = []; inbox = inbox };
  own = record { read_timeout = 200_000_000; last_tos = negsuc 0 };
}

probe_sent : (u : Conn mailbox) × Runs (Udp.send_probe mailbox probe) (conn []) tt u
unfolding Udp.send_probe Udp.mark Udp.set_tos marshal_probe marshal_header ◌>>=◌ ◌>>◌
probe_sent = (_, refl)

-- An echo that arrives marked CE, of a probe that arrived so.
probe_comes_back_example :
    ((w : Mail) × (mailbox.write (probe_bytes (wire_probe probe)) w ≡ (none, probe_sent.0.world)))
    × (echo_probe (probe_bytes (wire_probe probe)) 183 client (pos 5)
        ≡ record {
          to = client;
          payload = echo_bytes (wire_echo probe 183 (pos 5));
          tos = some ll_mark;
        }
          ∷ [])
    × Runs
        (Udp.recv_echo mailbox one_tos)
        (conn (packet (echo_bytes (wire_echo probe 183 (pos 5))) (183 ∷ []) ∷ []))
        (record {
          seq = 3;
          sent_at = pos 1_000_000;
          recv_at = 2_000_001;
          server_recv_at = pos 5;
          tos_observed = 183;
          ce_seen = true;
          down_tos_observed = parse_recv_tos (one_tos (183 ∷ []));
          down_ce = (parse_recv_tos (one_tos (183 ∷ [])) % 4) == 3;
        })
        (record (conn []) { world = record { clock = 2_000_001; sent = []; inbox = [] } })
probe_comes_back_example =
    probe_comes_back mailbox one_tos probe (conn []) probe_sent.0 (omega arith) (omega arith)
      (omega arith) probe_sent.1 183 client (pos 5) (omega arith)
      (conn (packet (echo_bytes (wire_echo probe 183 (pos 5))) (183 ∷ []) ∷ []))
      (conn (packet (echo_bytes (wire_echo probe 183 (pos 5))) (183 ∷ []) ∷ [])).world
      (record { clock = 2_000_001; sent = []; inbox = [] }) (183 ∷ []) refl refl

-- A MAC of sixteen bytes.
abbrev mac : List ℕ → List ℕ → List ℕ
mac key message = be 16 5

abbrev server : Server
server = listen (1 ∷ 2 ∷ [])

abbrev cookie_for_client : List ℕ
cookie_for_client = be 16 5

cookie-eq : make_cookie mac server.secret 9 client.ip ≡ cookie_for_client
unfolding make_cookie listen
cookie-eq = refl

abbrev down : Bool → List ℕ → List Inbound → Down mailbox
down have_token cookie inbox = record {
  world = record { clock = 0; sent = []; inbox = inbox };
  own = record {
    session = 9;
    cookie = cookie;
    have_token = have_token;
    mark = 1;
    achieved = 77;
    flow = some (record { meter = new_meter 0; last_reset = 0 });
  };
}

abbrev granted_reply : Inbound
granted_reply = packet (cookie_packet 9 (make_cookie mac server.secret 9 client.ip)) []

abbrev newcomer : Down mailbox
newcomer = down false (replicate cookie_size 0) (granted_reply ∷ [])

handshake_granted_example :
    (handle addr_text mac server (hello_packet 9) 0 client 0 (pos 0) ≡ (
      server,
      record {
        to = client;
        payload = cookie_packet 9 (make_cookie mac server.secret 9 client.ip);
        tos = none;
      }
          ∷ [],
    ))
    × Runs (DownLoad.handshake mailbox) newcomer tt (record {
      world = record { clock = 1; sent = hello_packet 9 ∷ []; inbox = [] };
      own = record (newcomer.own) {
        cookie = make_cookie mac server.secret 9 client.ip;
        have_token = true;
      };
    })
handshake_granted_example =
    handshake_granted mailbox addr_text mac server 0 client 0 (pos 0) newcomer
      (record { clock = 0; sent = hello_packet 9 ∷ []; inbox = granted_reply ∷ [] })
      (record { clock = 0; sent = hello_packet 9 ∷ []; inbox = granted_reply ∷ [] })
      (record { clock = 1; sent = hello_packet 9 ∷ []; inbox = [] }) [] (omega arith) refl refl refl
      refl refl

abbrev holder : Down mailbox
holder = down true cookie_for_client []

holder-Granted : Granted mailbox mac server.secret client holder.own
holder-Granted = record {
  has_token = refl;
  is_cookie = sym cookie-eq;
  cookie_length = refl;
  cookie_bytes = be-IsByte 16 5;
  session_u64 = omega arith;
  mark_byte = omega arith;
}

asked : (d : Down mailbox) × Runs (DownLoad.set_rate_bps mailbox 2_000_000_000) holder tt d
unfolding DownLoad.set_rate_bps DownLoad.start_flow DownLoad.handshake DownLoad.stop marshal_start
    marshal_header ◌>>=◌ ◌>>◌ new_meter
asked = (_, refl)

set_rate_honoured_example :
    ((w : Mail) × (mailbox.write (start_packet mailbox holder.own 2_000_000_000) w
        ≡ (none, asked.0.world)))
    × (asked.0.own ≡ measuring mailbox holder.own asked.0.world.clock)
    × Starts addr_text server client
        (min 2_000_000_000 max_down_rate_bps)
        (down_default_duration_ms * millisecond)
        1
        (handle addr_text mac server
          (start_packet mailbox holder.own 2_000_000_000)
          0
          client
          0
          (pos 0))
set_rate_honoured_example =
    set_rate_honoured mailbox addr_text mac server 0 client 0 (pos 0) 2_000_000_000 holder asked.0
      holder-Granted (omega arith) (omega arith) asked.1

stop_honoured_example :
    (DownLoad.stop mailbox holder ≡ record {
      world = record { clock = 0; sent = stop_packet mailbox holder.own ∷ []; inbox = [] };
      own = record (holder.own) { flow = none };
    })
    × Stops addr_text server client
        (handle addr_text mac server (stop_packet mailbox holder.own) 0 client 0 (pos 0))
stop_honoured_example =
    stop_honoured mailbox addr_text mac server 0 client 0 (pos 0) holder
      (record { meter = new_meter 0; last_reset = 0 }) holder-Granted refl
