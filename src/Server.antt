-- ===== src/Server.antt =====
-- server/server.go: the UDP endpoint. A handler takes the state and returns it as it is afterwards,
-- with the datagrams sent. `addr_string` is net.UDPAddr's String, the key of the maps; a flow's
-- number stands for the identity of its *downFlow. Times are nanoseconds of the monotonic clock, and
-- `wall` is the wall clock's UnixNano.
pub mod Dispatch
pub mod Effects
pub mod Replies
pub mod Flows
pub mod Reachability
pub mod Authorised
pub mod Serving
pub mod Process
use Prim.Native.String.{String}
use qoe_test_harness.Prelude.{
  ℕ, suc, ◌+◌, ◌-◌, ◌*◌, ◌%◌, ◌^◌, ◌<◌, Bool, true, false, not, ◌||◌, Option, none, some, List, [],
  ◌∷◌, Result, ok, err, length, replicate, ltb, leb, ◌==◌, if◌then◌else◌,
}
use qoe_test_harness.Prelude.Int.{ℤ}
use qoe_test_harness.Prelude.Maps.{lookup, insert, delete, adjust, nat_key, text_key}
use qoe_test_harness.Protocol.Bytes.{slice, write}
use qoe_test_harness.Protocol.Header.{
  Header, WireError, header_size, msg_hello, msg_cookie, msg_probe, msg_start, marshal_header,
  unmarshal_header,
}
use qoe_test_harness.Protocol.Packet.{Probe, Echo, echo_size, marshal_echo, unmarshal_probe}
use qoe_test_harness.Protocol.Handshake.{cookie_size, make_cookie, verify_cookie}
use qoe_test_harness.Protocol.Start.{msg_stop, unmarshal_start}
use qoe_test_harness.Protocol.Load.{msg_load, LoadStat, load_stat_size, marshal_load_stat}

abbrev pub millisecond : ℕ
millisecond = 1_000_000

abbrev pub load_report_interval : ℕ
load_report_interval = 50 * millisecond

abbrev pub max_down_rate_bps : ℕ
max_down_rate_bps = 1_000_000_000

abbrev pub max_down_duration_ms : ℕ
max_down_duration_ms = 30_000

-- net.UDPAddr: `ip` is its slice of bytes.
pub record Addr : Type 0 where
  pub ip : List ℕ
  pub port : ℕ

-- loadCounter.
pub record LoadCounter : Type 0 where
  pub bytes : ℕ
  pub last : ℕ

-- A running downLoop: its arguments, the timeout of its context, and whether that was cancelled.
pub record DownFlow : Type 0 where
  pub src : Addr
  pub rate : ℕ
  pub lifetime : ℕ
  pub marking : ℕ
  pub cancelled : Bool

-- `flows` are the goroutines that run, by number, and `next_flow` is the number of the next one.
pub record Server : Type 0 where
  pub secret : List ℕ
  pub loads : List (String × LoadCounter)
  pub downs : List (String × ℕ)
  pub flows : List (ℕ × DownFlow)
  pub next_flow : ℕ

-- What a write hands to the socket; `tos` is the byte of the IP_TOS control message, if there is one.
pub record Datagram : Type 0 where
  pub to : Addr
  pub payload : List ℕ
  pub tos : Option ℕ

-- A server as `Listen` makes it.
unfoldable pub listen : List ℕ → Server
listen secret = record { secret = secret; loads = []; downs = []; flows = []; next_flow = 0 }

abbrev pub cancel : DownFlow → DownFlow
cancel f = record f { cancelled = true }

unfoldable pub ce_bit : ℕ → ℕ
ce_bit tos = if tos % 4 == 3 then 1 else 0

-- The echo of a probe.
abbrev pub echo_fields : Probe → ℕ → ℤ → Echo
echo_fields p tos wall = record {
  header = record { type = 0; session = p.header.session; seq = p.header.seq };
  t_send_nanos = p.t_send_nanos;
  t_recv_server_nanos = wall;
  tos_observed = tos % 256;
  ce = ce_bit tos;
}

-- `if _, err := x.Marshal(out); err == nil { write }`.
abbrev pub send_if_ok : Result WireError (ℕ × List ℕ) → (List ℕ → Datagram) → List Datagram
send_if_ok (ok (n, out)) datagram = datagram out ∷ []
send_if_ok (err e) datagram = []

unfoldable pub echo_probe : List ℕ → ℕ → Addr → ℤ → List Datagram
echo_probe b tos src wall = elim (unmarshal_probe b) [
  | err e ↦ []
  | ok p ↦
      send_if_ok (marshal_echo (echo_fields p tos wall) (replicate echo_size 0))
        (λ out. record { to = src; payload = out; tos = some p.tos_intended })
]

unfoldable pub send_cookie : (List ℕ → List ℕ → List ℕ) → Server → ℕ → Addr → List Datagram
send_cookie hmac s session src =
    let h : Header = record { type = msg_cookie; session = session; seq = 0 } in
    send_if_ok (marshal_header h (replicate (header_size + cookie_size) 0)) (λ out. record {
      to = src;
      payload = write out header_size (make_cookie hmac s.secret session src.ip);
      tos = none;
    })

-- The counter of a source; the first packet makes one.
abbrev pub counter_of : Option LoadCounter → ℕ → LoadCounter
counter_of none now = record { bytes = 0; last = now }
counter_of (some lc) now = lc

module _ (addr_string : Addr → String) where
  unfoldable pub on_load : Server → ℕ → Addr → ℕ → ℤ → Server × List Datagram
  on_load s n src now wall =
      let lc = counter_of (lookup (addr_string src) s.loads) now in
      let bytes = (lc.bytes + n) % 2 ^ 64 in
      let report = leb load_report_interval (now - lc.last) in
      let counted : LoadCounter = record {
        bytes = bytes;
        last = if report then now else lc.last;
      } in
      let stat : LoadStat = record {
        header = record { type = 0; session = 0; seq = 0 };
        bytes_recv = bytes;
        t_server_nanos = wall;
      } in
      (
        record s { loads = insert (addr_string src) counted s.loads },
        if report
            then send_if_ok (marshal_load_stat stat (replicate load_stat_size 0))
                (λ out. record { to = src; payload = out; tos = none })
            else [],
      )

  unfoldable pub start_down : Server → Addr → ℕ → ℕ → ℕ → Server
  start_down s src rate lifetime marking =
      let key = addr_string src in
      let old_cancelled : List (ℕ × DownFlow) = elim (lookup key s.downs) [
        | none ↦ s.flows
        | some old ↦ adjust old cancel s.flows
      ] in
      let df : DownFlow = record {
        src = src;
        rate = rate;
        lifetime = lifetime;
        marking = marking;
        cancelled = false;
      } in
      record s {
        downs = insert key s.next_flow s.downs;
        flows = (s.next_flow, df) ∷ old_cancelled;
        next_flow = suc s.next_flow;
      }

  unfoldable pub stop_down : Server → String → Server
  stop_down s key = elim (lookup key s.downs) [
    | none ↦ s
    | some df ↦ record s { downs = delete key s.downs; flows = adjust df cancel s.flows }
  ]

  -- The deferred function of `downLoop`, when the context of flow `df` is done: cancelled, or past its
  -- timeout.
  unfoldable pub retire : Server → ℕ → Server
  retire s df = elim (lookup df s.flows) [
    | none ↦ s
    | some f ↦
        let mine : Bool = elim (lookup (addr_string f.src) s.downs) [
          | none ↦ false
          | some id ↦ id == df
        ] in
        record s {
          downs = if mine then delete (addr_string f.src) s.downs else s.downs;
          flows = delete df s.flows;
        }
  ]

  -- The loop of `Close` over the map.
  unfoldable pub cancel_all : List (String × ℕ) → List (ℕ × DownFlow) → List (ℕ × DownFlow)
  cancel_all [] flows = flows
  cancel_all ((key, df) ∷ downs) flows = cancel_all downs (adjust df cancel flows)

  unfoldable pub close : Server → Server
  close s = record s { downs = []; flows = cancel_all s.downs s.flows }

  module _ (hmac : List ℕ → List ℕ → List ℕ) where
    unfoldable pub on_start : Server → List ℕ → Addr → Server
    on_start s b src = elim (unmarshal_start b) [
      | err e ↦ s
      | ok st ↦
          if not (verify_cookie hmac s.secret st.header.session src.ip st.cookie)
          then s
          else let rate =
              if ltb max_down_rate_bps st.rate_bps then max_down_rate_bps else st.rate_bps in
            let dur = st.duration_ms * millisecond in
            let bounded =
              if dur == 0 || ltb (max_down_duration_ms * millisecond) dur
              then max_down_duration_ms * millisecond
              else dur in
            start_down s src rate bounded st.marking
    ]

    unfoldable pub on_stop : Server → Header → List ℕ → Addr → Server
    on_stop s h b src =
        if ltb (length b) (header_size + cookie_size)
        then s
        else if not (verify_cookie hmac s.secret h.session src.ip (slice b header_size cookie_size))
        then s
        else stop_down s (addr_string src)

    -- The switch of `handle` on the type of the header.
    abbrev pub dispatch : Server → Header → List ℕ → ℕ → Addr → ℕ → ℤ → Server × List Datagram
    dispatch s h b tos src now wall =
        if h.type == msg_hello
        then (s, send_cookie hmac s h.session src)
        else if h.type == msg_probe
        then (s, echo_probe b tos src wall)
        else if h.type == msg_load
        then on_load s (length b) src now wall
        else if h.type == msg_start
        then (on_start s b src, [])
        else if h.type == msg_stop
        then (on_stop s h b src, [])
        else (s, [])

    -- One packet `b` from `src`, with the TOS byte that its control messages carry.
    unfoldable pub handle : Server → List ℕ → ℕ → Addr → ℕ → ℤ → Server × List Datagram
    handle s b tos src now wall = elim (unmarshal_header b) [
      | err e ↦ (s, [])
      | ok h ↦ dispatch s h b tos src now wall
    ]
