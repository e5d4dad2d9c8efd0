-- ===== src/Net/DownLoad/Granted.antt =====
-- What the server does with the Start of a downstream client.
use Prim.Native.String.{String}
use qoe_test_harness.Prelude.{
  ℕ, ◌*◌, ◌<◌, ◌≡◌, refl, sym, ap, subst, ◌∙◌, true, not, ◌||◌, Option, none, some, List, [],
  append-nil, Result, ok, err, length, replicate, ltb, ◌==◌, if-false, if-true, not_zero,
  if◌then◌else◌, arith, All, min,
}
use qoe_test_harness.Prelude.Int.{ℤ}
use qoe_test_harness.Prelude.Calls.{◌>>=◌, Runs, Runs_inv_then}
use qoe_test_harness.Protocol.Bytes.{IsByte, IsU64}
use qoe_test_harness.Protocol.Header.{WireError, msg_start}
use qoe_test_harness.Protocol.Header.RoundTrip.{read_header}
use qoe_test_harness.Protocol.Handshake.{cookie_size, make_cookie, verify_cookie}
use qoe_test_harness.Protocol.Handshake.Binding.{verify_cookie_iff}
use qoe_test_harness.Protocol.Start.{
  Start, IsStart, start_size, sent_start, start_bytes, marshal_start, unmarshal_start,
}
use qoe_test_harness.Protocol.Start.RoundTrip.{marshal_start-eq, read_start}
use qoe_test_harness.Net.Socket.{Socket, io, wire, update, written}
use qoe_test_harness.Net.DownLoad.{
  down_default_duration_ms, UdpDownLoad, start_of, Down, handshake, begin, Receiving, halt, stop,
  start_flow, set_rate_bps,
}
use qoe_test_harness.Net.Pace.{new_meter}
use qoe_test_harness.Server.{
  Addr, Server, millisecond, max_down_rate_bps, start_down, on_start, handle,
}
use qoe_test_harness.Server.Effects.{Starts, start_down-Starts}
use qoe_test_harness.Net.DownLoad.Cookie.{header_of, header_of-IsHeader, handle-of}

module _ (socket : Socket) where
  -- A client that holds the server's cookie.
  pub record Granted (hmac : List ℕ → List ℕ → List ℕ) (secret : List ℕ) (src : Addr)
      (d : UdpDownLoad) : Type 0 where
    pub has_token : d.have_token ≡ true
    pub is_cookie : d.cookie ≡ make_cookie hmac secret d.session src.ip
    pub cookie_length : length d.cookie ≡ cookie_size
    pub cookie_bytes : All IsByte d.cookie
    pub session_u64 : IsU64 d.session
    pub mark_byte : IsByte d.mark

  start_of-IsStart :
      (hmac : List ℕ → List ℕ → List ℕ) (secret : List ℕ) (src : Addr) (d : UdpDownLoad)
      (rate type : ℕ)
      → Granted hmac secret src d
      → IsU64 rate
      → IsByte type
      → IsStart (record (start_of d rate) { header = header_of type d.session })
  start_of-IsStart hmac secret src d rate type g r t = record {
    is_header = header_of-IsHeader type d.session t g.session_u64;
    cookie_length = g.cookie_length;
    cookie_bytes = g.cookie_bytes;
    rate_u64 = r;
    duration_u32 = omega arith;
    marking_byte = g.mark_byte;
  }

  -- The Start packet of a client.
  abbrev pub start_packet : UdpDownLoad → ℕ → List ℕ
  start_packet d rate = start_bytes (sent_start (start_of d rate))

  handle-start :
      (addr_string : Addr → String) (hmac : List ℕ → List ℕ → List ℕ) (s : Server) (tos : ℕ)
      (src : Addr) (now : ℕ) (wall : ℤ) (d : UdpDownLoad) (rate : ℕ)
      → Granted hmac s.secret src d
      → IsU64 rate
      → handle addr_string hmac s (start_packet d rate) tos src now wall ≡ (
        start_down addr_string s src
            (min rate max_down_rate_bps)
            (down_default_duration_ms * millisecond)
            d.mark,
        [],
      )
  unfolding on_start
  handle-start addr_string hmac s tos src now wall d rate g r =
      handle-of addr_string hmac s tos src now wall (start_packet d rate)
        (header_of msg_start d.session)
        (read_header (header_of msg_start d.session) _
          (header_of-IsHeader msg_start d.session (omega arith) g.session_u64))
      ∙ ap (λ t. (t, []))
          (ap parsed (
              subst (λ b. unmarshal_start b ≡ ok (sent_start (start_of d rate)))
                (append-nil (start_packet d rate))
                (read_start (sent_start (start_of d rate)) []
                  (start_of-IsStart hmac s.secret src d rate msg_start g r (omega arith))))
            ∙ if-false _ _ _
                (ap not ((verify_cookie_iff hmac s.secret d.session src.ip d.cookie).1 g.is_cookie))
            ∙ ap
                (λ r.
                  start_down addr_string s src r (down_default_duration_ms * millisecond) d.mark)
                (capped rate))
    where
      capped :
          (n : ℕ)
          → (if ltb max_down_rate_bps n then max_down_rate_bps else n) ≡ min n max_down_rate_bps
      capped n = ground arith

      parsed : Result WireError Start → Server
      parsed q = elim q [
        | err e ↦ s
        | ok st ↦
            if not (verify_cookie hmac s.secret st.header.session src.ip st.cookie)
            then s
            else let rate =
                if ltb max_down_rate_bps st.rate_bps then max_down_rate_bps else st.rate_bps in
              let dur = st.duration_ms * millisecond in
              let bounded =
                if dur == 0 || ltb (30_000 * millisecond) dur then 30_000 * millisecond else dur in
              start_down addr_string s src rate bounded st.marking
      ]

  stop-own : (d : Down socket) → (stop socket d).own ≡ record (d.own) { flow = none }
  unfolding stop
  stop-own d = halted d.own.flow refl
    where
      halted :
          (o : Option Receiving)
          → d.own.flow ≡ o
          → (halt socket d o).own ≡ record (d.own) { flow = none }
      halted none e = ap (λ o. record (d.own) { flow = o }) e
      halted (some f) e = refl

  -- The state that measuring starts from.
  abbrev pub measuring : UdpDownLoad → ℕ → UdpDownLoad
  measuring d now = record d {
    achieved = 0;
    flow = some (record { meter = new_meter now; last_reset = now });
  }

  abbrev Started : ℕ → Down socket → Down socket → Type 0
  Started rate d d' =
      ((w : socket.World) × (socket.write (start_packet d.own rate) w ≡ (none, d'.world)))
      × (d'.own ≡ measuring d.own (socket.now d'.world))

  start_packet-written :
      (hmac : List ℕ → List ℕ → List ℕ) (secret : List ℕ) (src : Addr) (rate : ℕ)
      (d d1 d' : Down socket) (a b : Unit {0})
      → Granted hmac secret src d.own
      → IsU64 rate
      → Runs
          (wire (marshal_start (start_of d.own rate) (replicate start_size 0)) >>= λ (n, out).
            io socket (socket.write out))
          d
          a
          d1
      → Runs (update (begin socket)) d1 b d'
      → Started rate d d'
  start_packet-written hmac secret src rate d d1 d' a b g r wrote begun =
      let (sent, kept) =
        written socket _ start_size (start_packet d.own rate) d d1
          (marshal_start-eq (start_of d.own rate) (replicate start_size 0)
              (start_of-IsStart hmac secret src d.own rate 0 g r (omega arith)) (omega arith)
            ∙ ap (λ t. ok (start_size, t)) (append-nil (start_packet d.own rate)))
          wrote in
      let left : begin socket d1 ≡ d' = ap (λ x. x.1) begun in
      subst (Started rate d) left
        ((d.world, sent), ap (λ o. measuring o (socket.now d1.world)) kept)

  -- A client that holds the cookie passes over the handshake, writes the Start and begins to measure.
  start_flow-Started :
      (hmac : List ℕ → List ℕ → List ℕ) (secret : List ℕ) (src : Addr) (rate : ℕ)
      (d d' : Down socket)
      → Granted hmac secret src d.own
      → IsU64 rate
      → Runs (start_flow socket rate) d tt d'
      → Started rate d d'
  unfolding start_flow handshake
  start_flow-Started hmac secret src rate d d' g r run =
      let (_, d1, shaken, run) = Runs_inv_then (handshake socket) _ d run in
      let (_, d2, wrote, begun) = Runs_inv_then _ (update (begin socket)) d1 run in
      let same : d1 ≡ d = ap (λ x. x.1) (sym shaken ∙ if-true _ _ _ g.has_token) in
      start_packet-written hmac secret src rate d d2 d' _ _ g r
        (subst
          (λ e.
            Runs
              (wire (marshal_start (start_of e.own rate) (replicate start_size 0)) >>= λ (n, out).
                io socket (socket.write out))
              e _ d2)
          same wrote)
        begun

  stop-Granted :
      (hmac : List ℕ → List ℕ → List ℕ) (secret : List ℕ) (src : Addr) (d : Down socket)
      → Granted hmac secret src d.own
      → Granted hmac secret src (stop socket d).own
  stop-Granted hmac secret src d g = subst (Granted hmac secret src) (sym (stop-own d)) (record {
    has_token = g.has_token;
    is_cookie = g.is_cookie;
    cookie_length = g.cookie_length;
    cookie_bytes = g.cookie_bytes;
    session_u64 = g.session_u64;
    mark_byte = g.mark_byte;
  })

  -- When a client that holds the cookie of a server for its address asks for a rate that is not 0 and gets no error, it has written
  -- a Start packet. With this packet the server gets a flow to the client that is not cancelled, which its map has for the
  -- client's address, and it answers nothing: the flow is at that rate or 1 Gbit/s if that is less, for 20 s and with the
  -- client's mark. The client begins to measure then, from an achieved rate of 0.
  pub set_rate_honoured :
      (addr_string : Addr → String) (hmac : List ℕ → List ℕ → List ℕ) (s : Server) (tos : ℕ)
      (src : Addr) (now : ℕ) (wall : ℤ) (rate : ℕ) (d d' : Down socket)
      → Granted hmac s.secret src d.own
      → 0 < rate
      → IsU64 rate
      → Runs (set_rate_bps socket rate) d tt d'
      → ((w : socket.World) × (socket.write (start_packet d.own rate) w ≡ (none, d'.world)))
        × (d'.own ≡ measuring d.own (socket.now d'.world))
        × Starts addr_string s src
            (min rate max_down_rate_bps)
            (down_default_duration_ms * millisecond)
            d.own.mark
            (handle addr_string hmac s (start_packet d.own rate) tos src now wall)
  unfolding set_rate_bps
  set_rate_honoured addr_string hmac s tos src now wall rate d d' g positive r run =
      let e = stop socket d in
      let started : Started rate e d' =
        start_flow-Started hmac s.secret src rate e d' (stop-Granted hmac s.secret src d g) r
          (sym (if-false _ _ _ (not_zero rate positive)) ∙ run) in
      let (w, sent) = started.0 in
      (
        (w, subst (λ o. socket.write (start_packet o rate) w ≡ (none, d'.world)) (stop-own d) sent),
        started.1 ∙ ap (λ o. measuring o (socket.now d'.world)) (stop-own d),
        subst
            (Starts addr_string s src (min rate max_down_rate_bps)
              (down_default_duration_ms * millisecond) d.own.mark)
            (sym (handle-start addr_string hmac s tos src now wall d.own rate g r))
            (start_down-Starts addr_string s src _ _ d.own.mark),
      )
