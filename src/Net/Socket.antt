-- ===== src/Net/Socket.antt =====
-- A connected UDP socket of the standard library with the calls of golang.org/x/sys/unix on it, as
-- calls on a world, and the control messages that come with a packet.
use qoe_test_harness.Prelude.{
  ℕ, ◌&&◌, ◌||◌, Option, none, some, List, [], ◌∷◌, Result, ok, err, ◌==◌, if◌then◌else◌, ◌≡◌, refl,
  sym, ap, subst, ◌∙◌,
}
use qoe_test_harness.Prelude.Calls.{M, Runs, ◌>>=◌, ◌>>◌}
use qoe_test_harness.Protocol.Header.{WireError}
use qoe_test_harness.Net.Seams.{Failure}

-- What a read returns: a packet with its control bytes, a timeout, or another error.
pub data Inbound : Type 0 where
  packet : List ℕ → List ℕ → Inbound
  timed_out : Failure → Inbound
  read_failed : Failure → Inbound

-- `control opt value` is RawConn.Control on a call of SetsockoptInt at the level IPPROTO_IP: the
-- errors of the two. `set_read_deadline d` sets the time `d` from now.
pub record Socket : Type 1 where
  pub World : Type 0
  pub now : World → ℕ
  pub write : List ℕ → World → Option Failure × World
  pub set_read_deadline : ℕ → World → Option Failure × World
  pub read : World → Inbound × World
  pub close : World → Option Failure × World
  pub syscall_conn : World → Option Failure × World
  pub control : ℕ → ℕ → World → (Option Failure × Option Failure) × World

-- unix.IPPROTO_IP, IP_TOS and IP_RECVTOS, of Linux.
abbrev pub ipproto_ip : ℕ
ipproto_ip = 0

abbrev pub ip_tos : ℕ
ip_tos = 1

abbrev pub ip_recvtos : ℕ
ip_recvtos = 13

-- unix.SocketControlMessage.
pub record ControlMessage : Type 0 where
  pub level : ℕ
  pub type : ℕ
  pub data_bytes : List ℕ

-- The first byte of a message with the TOS, if `m` is one.
abbrev tos_byte : ControlMessage → Option ℕ
tos_byte m =
    if m.level == ipproto_ip && (m.type == ip_tos || m.type == ip_recvtos)
    then elim m.data_bytes [ [] ↦ none | b ∷ bs ↦ some b ]
    else none

unfoldable pub first_tos : List ControlMessage → ℕ
first_tos [] = 0
first_tos (m ∷ ms) = let rest = first_tos ms in elim (tos_byte m) [ some b ↦ b | none ↦ rest ]

-- parseRecvTOS; `parsed` is what ParseSocketControlMessage makes of the control bytes.
unfoldable pub parse_recv_tos : Result Failure (List ControlMessage) → ℕ
unfolding first_tos
parse_recv_tos (ok msgs) = first_tos msgs
parse_recv_tos (err f) = 0

-- An error of the socket, of the wire format, or ErrNoEcho.
pub data ConnError : Type 0 where
  net_error : Failure → ConnError
  wire_error : WireError → ConnError
  err_no_echo : ConnError

module _ (socket : Socket) where
  -- The fields of a client over the socket, with the socket and its surroundings.
  pub record Client (R : Type 0) : Type 0 where
    pub world : socket.World
    pub own : R

  module _ {R : Type 0} where
    -- The outcome of a call on the socket.
    abbrev pub settle :
        Client R → Option Failure × socket.World → Result ConnError (Unit {0}) × Client R
    settle s (none, w) = (ok tt, record s { world = w })
    settle s (some f, w) = (err (net_error f), record s { world = w })

    abbrev pub io :
        (socket.World → Option Failure × socket.World) → M ConnError (Client R) (Unit {0})
    io call s = settle s (call s.world)

    pub io_inv :
        (call : socket.World → Option Failure × socket.World) (s s' : Client R)
        → Runs (io call) s tt s'
        → (call s.world ≡ (none, s'.world)) × (s'.own ≡ s.own)
    io_inv call s s' e = split (call s.world) refl e
      where
        split :
            (r : Option Failure × socket.World)
            → call s.world ≡ r
            → settle s r ≡ (ok tt, s')
            → (call s.world ≡ (none, s'.world)) × (s'.own ≡ s.own)
        split (none, w) c e =
            let left = ap (λ x. x.1) e in
            (c ∙ ap (λ x. (none, x.world)) left, sym (ap (λ x. x.own) left))
        split (some f, w) c e = cc

    -- `conn.Read`.
    abbrev pub taken : Client R → Inbound × socket.World → Result ConnError (List ℕ) × Client R
    taken s (packet b oob, w) = (ok b, record s { world = w })
    taken s (timed_out f, w) = (err (net_error f), record s { world = w })
    taken s (read_failed f, w) = (err (net_error f), record s { world = w })

    abbrev pub read_packet : M ConnError (Client R) (List ℕ)
    read_packet s = taken s (socket.read s.world)

    -- The error of SyscallConn, that of Control, or that of the call in it.
    abbrev pub set_option : ℕ → ℕ → M ConnError (Client R) (Unit {0})
    set_option opt value = do
      io socket.syscall_conn
      io (λ w.
          let (errors, w') = socket.control opt value w in
          (elim errors.0 [ some f ↦ some f | none ↦ errors.1 ], w'))

module _ {S : Type 0} where
  -- Encoding and decoding.
  abbrev pub wire : {A : Type 0} → Result WireError A → M ConnError S A
  wire (ok a) s = (ok a, s)
  wire (err e) s = (err (wire_error e), s)

  -- `return err`.
  abbrev pub refuse : {A : Type 0} → ConnError → M ConnError S A
  refuse e s = (err e, s)

  -- What the client itself holds.
  abbrev pub update : (S → S) → M ConnError S (Unit {0})
  update f s = (ok tt, f s)

-- What a run of "encode, then write" has written.
pub written :
    (socket : Socket) {R : Type 0} (r : Result WireError (ℕ × List ℕ)) (n : ℕ) (bytes : List ℕ)
    (v u : Client socket R)
    → r ≡ ok (n, bytes)
    → Runs (wire r >>= λ (m, buf). io socket (socket.write buf)) v tt u
    → (socket.write bytes v.world ≡ (none, u.world)) × (u.own ≡ v.own)
unfolding ◌>>=◌
written socket r n bytes v u e run =
    io_inv socket (socket.write bytes) v u
      (subst (λ x. Runs (wire x >>= λ (m, buf). io socket (socket.write buf)) v tt u) e run)
