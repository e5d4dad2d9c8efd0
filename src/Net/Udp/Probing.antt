-- ===== src/Net/Udp/Probing.antt =====
-- A probe of the client, the server's echo of it, and what the client makes of the echo.
use qoe_test_harness.Prelude.{
  ℕ, ◌%◌, ◌^◌, ◌<◌, ◌≡◌, refl, ap, subst, ◌∙◌, not, none, some, List, [], ◌∷◌, append-nil, Result,
  ok, err, replicate, ◌==◌, arith,
}
use qoe_test_harness.Prelude.Int.{ℤ, pos}
use qoe_test_harness.Prelude.Calls.{Runs, Runs-bind, Runs-then, Runs_inv_then}
use qoe_test_harness.Protocol.Bytes.{IsByte, IsU64, IsI64}
use qoe_test_harness.Protocol.Header.{WireError, msg_probe, msg_echo}
use qoe_test_harness.Protocol.Packet as Packet
use qoe_test_harness.Protocol.Packet.{
  IsProbe, IsEcho, probe_size, echo_size, probe_bytes, echo_bytes, marshal_probe, marshal_echo,
  unmarshal_probe, unmarshal_echo,
}
use qoe_test_harness.Protocol.Packet.RoundTrip.{
  marshal_probe-eq, read_probe, marshal_echo-eq, read_echo,
}
use qoe_test_harness.Net.Conn.{Probe}
use qoe_test_harness.Net.Seams.{Failure}
use qoe_test_harness.Net.Socket.{
  packet, Socket, ControlMessage, parse_recv_tos, settle, wire, written,
}
use qoe_test_harness.Net.Udp.{Conn, taken_marked, mark, send_probe, client_echo, recv_echo}
use qoe_test_harness.Server.{Addr, Datagram, ce_bit, echo_fields, send_if_ok, echo_probe}

-- The packet of a probe, and that of the server's echo of it.
abbrev pub wire_probe : Probe → Packet.Probe
wire_probe p = record {
  header = record { type = msg_probe; session = 0; seq = p.seq };
  t_send_nanos = pos p.sent_at;
  tos_intended = p.marking;
}

abbrev pub wire_echo : Probe → ℕ → ℤ → Packet.Echo
wire_echo p tos wall = record {
  header = record { type = msg_echo; session = 0; seq = p.seq };
  t_send_nanos = pos p.sent_at;
  t_recv_server_nanos = wall;
  tos_observed = tos % 256;
  ce = ce_bit tos;
}

ce_bit-eq : (tos : ℕ) → not (ce_bit tos == 0) ≡ ((tos % 4) == 3)
unfolding ce_bit
ce_bit-eq tos = ground arith

module _ (p : Probe) (seq : IsU64 p.seq) (time : p.sent_at < 2 ^ 63)
    (marked : IsByte p.marking) where
  wire_probe-IsProbe : IsProbe (wire_probe p)
  wire_probe-IsProbe = record {
    is_header = record { type_byte = omega arith; session_u64 = omega arith; seq_u64 = seq };
    t_send_i64 = time;
    tos_byte = marked;
  }

  wire_echo-IsEcho : (tos : ℕ) (wall : ℤ) → IsI64 wall → IsEcho (wire_echo p tos wall)
  unfolding ce_bit
  wire_echo-IsEcho tos wall w = record {
    is_header = record { type_byte = omega arith; session_u64 = omega arith; seq_u64 = seq };
    t_send_i64 = time;
    t_recv_i64 = w;
    tos_byte = omega arith;
    ce_byte = ground arith;
  }

  -- The server's answer to the packet of a probe.
  echo_probe-answer :
      (tos : ℕ) (src : Addr) (wall : ℤ)
      → echo_probe (probe_bytes (wire_probe p)) tos src wall
        ≡ record { to = src; payload = echo_bytes (wire_echo p tos wall); tos = some p.marking }
          ∷ []
  unfolding echo_probe
  echo_probe-answer tos src wall =
      ap answer (
        subst (λ b. unmarshal_probe b ≡ ok (wire_probe p)) (append-nil (probe_bytes (wire_probe p)))
          (read_probe (wire_probe p) [] wire_probe-IsProbe))
      ∙ ap packed (
          marshal_echo-eq (echo_fields (wire_probe p) tos wall) (replicate echo_size 0)
            (omega arith))
    where
      packed : Result WireError (ℕ × List ℕ) → List Datagram
      packed r = send_if_ok r (λ out. record { to = src; payload = out; tos = some p.marking })

      answer : Result WireError Packet.Probe → List Datagram
      answer r = elim r [
        | err e ↦ []
        | ok q ↦
            send_if_ok (marshal_echo (echo_fields q tos wall) (replicate echo_size 0))
              (λ out. record { to = src; payload = out; tos = some q.tos_intended })
      ]

module _ (socket : Socket) where
  -- What a successful send of a probe has handed to the socket.
  send_probe-writes :
      (p : Probe) (u u' : Conn socket)
      → Runs (send_probe socket p) u tt u'
      → (w : socket.World) × (socket.write (probe_bytes (wire_probe p)) w ≡ (none, u'.world))
  unfolding send_probe
  send_probe-writes p u u' run =
      let (_, v, _, rest) = Runs_inv_then (mark socket p.marking) _ u run in
      (
        v.world,
        (written socket _ probe_size (probe_bytes (wire_probe p)) v u'
            (marshal_probe-eq _ _ (omega arith)) rest).0,
      )

  module _ (parse_control : List ℕ → Result Failure (List ControlMessage)) where
    -- What the client makes of an echo that the socket delivers.
    recv_echo-Runs :
        (e : Packet.Echo) (v : Conn socket) (w w' : socket.World) (oob : List ℕ)
        → IsEcho e
        → socket.set_read_deadline v.own.read_timeout v.world ≡ (none, w)
        → socket.read w ≡ (packet (echo_bytes e) oob, w')
        → Runs
            (recv_echo socket parse_control)
            v
            (client_echo e (socket.now w') (parse_recv_tos (parse_control oob)))
            (record v { world = w' })
    unfolding recv_echo
    recv_echo-Runs e v w w' oob valid ready arrived =
        Runs-then _ _ _ _ _ (ap (settle socket v) ready) (
          Runs-bind _ _ _ _ _
            (ap (taken_marked socket parse_control (record v { world = w })) arrived)
            (Runs-bind _ _ _ _ _ refl (
              Runs-bind _ _ _ _ _
                (ap (λ r. wire r (record v { world = w' }))
                  (subst (λ b. unmarshal_echo b ≡ ok e) (append-nil (echo_bytes e))
                    (read_echo e [] valid)))
                refl)))

    -- Of a probe whose number fits 64 bits, whose time an int64 and whose mark a byte, a successful send hands the socket the packet
    -- that the server answers with one echo, marked like the probe and sent to the source. When the client's socket delivers
    -- this echo, the client receives the probe's number and time, the server's time, the TOS byte that the server has seen, CE
    -- exactly when its two low bits are set, the time after the read, and the TOS byte of the echo with its CE.
    pub probe_comes_back :
        (p : Probe) (u u' : Conn socket)
        → IsU64 p.seq
        → p.sent_at < 2 ^ 63
        → IsByte p.marking
        → Runs (send_probe socket p) u tt u'
        → (tos : ℕ) (src : Addr) (wall : ℤ) → IsI64 wall
        → (v : Conn socket) (w w' : socket.World) (oob : List ℕ)
        → socket.set_read_deadline v.own.read_timeout v.world ≡ (none, w)
        → socket.read w ≡ (packet (echo_bytes (wire_echo p tos wall)) oob, w')
        → ((sent : socket.World) × (socket.write (probe_bytes (wire_probe p)) sent
              ≡ (none, u'.world)))
          × (echo_probe (probe_bytes (wire_probe p)) tos src wall
              ≡ record {
                to = src;
                payload = echo_bytes (wire_echo p tos wall);
                tos = some p.marking;
              }
                ∷ [])
          × Runs
              (recv_echo socket parse_control)
              v
              (record {
                seq = p.seq;
                sent_at = pos p.sent_at;
                recv_at = socket.now w';
                server_recv_at = wall;
                tos_observed = tos % 256;
                ce_seen = (tos % 4) == 3;
                down_tos_observed = parse_recv_tos (parse_control oob);
                down_ce = (parse_recv_tos (parse_control oob) % 4) == 3;
              })
              (record v { world = w' })
    probe_comes_back p u u' seq time marked run tos src wall iwall v w w' oob ready arrived = (
      send_probe-writes p u u' run,
      echo_probe-answer p seq time marked tos src wall,
      subst
          (λ ce.
            Runs (recv_echo socket parse_control) v
              (record (client_echo (wire_echo p tos wall) (socket.now w')
                (parse_recv_tos (parse_control oob))) { ce_seen = ce })
              (record v { world = w' }))
          (ce_bit-eq tos)
          (recv_echo-Runs (wire_echo p tos wall) v w w' oob
            (wire_echo-IsEcho p seq time marked tos wall iwall) ready arrived),
    )
