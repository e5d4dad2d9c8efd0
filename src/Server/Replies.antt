-- ===== src/Server/Replies.antt =====
-- What the server sends in answer to a packet.
use Prim.Native.String.{String}
use qoe_test_harness.Prelude.{
  ℕ, ◌+◌, ◌-◌, ◌%◌, ◌^◌, ◌≤◌, ◌≡◌, ◌⊎◌, inl, inr, refl, sym, ap, subst, ◌∙◌, Bool, true, false,
  none, List, [], ◌∷◌, Result, ok, err, length, replicate, length-replicate, ltb, leb,
  if◌then◌else◌, arith, Bool-cases, Result-cases, >>=-eq-ok, ok-injective,
}
use qoe_test_harness.Prelude.Int.{ℤ}
use qoe_test_harness.Prelude.Maps.{lookup, text_key}
use qoe_test_harness.Protocol.Bytes.Fields.{length_enough}
use qoe_test_harness.Protocol.Bytes.Writes.{length-write}
use qoe_test_harness.Protocol.Header.{
  Header, WireError, header_size, marshal_header, unmarshal_header,
}
use qoe_test_harness.Protocol.Packet.{
  Echo, Probe, echo_size, probe_size, marshal_echo, unmarshal_probe,
}
use qoe_test_harness.Protocol.Handshake.{cookie_size}
use qoe_test_harness.Protocol.Load.{LoadStat, load_stat_size, marshal_load_stat}
use qoe_test_harness.Server.Dispatch.{handle-each}
use qoe_test_harness.Server.{
  Addr, Server, Datagram, echo_probe, echo_fields, send_if_ok, counter_of, load_report_interval,
  echo_probe, on_load, send_cookie, handle,
}

length-second :
    (n : ℕ) (xs : List ℕ) (r : ℕ × List ℕ)
    → ◌≡◌ {A = Result WireError (ℕ × List ℕ)} (ok (n, xs)) (ok r)
    → length xs ≡ length r.1
length-second n xs r e = ap (λ p. length p.1) (ok-injective (n, xs) r e)

length-marshal_header :
    (h : Header) (dst : List ℕ) (r : ℕ × List ℕ)
    → marshal_header h dst ≡ ok r
    → length r.1 ≡ length dst
unfolding marshal_header
length-marshal_header h dst r e = elim (Bool-cases (ltb (length dst) header_size)) [
  | inl s ↦ cc (rw s at e)
  | inr s ↦
      sym (length-second _ _ r (rw s at e))
      ∙ rw (length-write, length-write, length-write, length-write, length-write) refl
]

length-marshal_echo :
    (x : Echo) (dst : List ℕ) (r : ℕ × List ℕ) → marshal_echo x dst ≡ ok r → length r.1 ≡ length dst
unfolding marshal_echo
length-marshal_echo x dst r e = elim (Bool-cases (ltb (length dst) echo_size)) [
  | inl s ↦ cc (rw s at e)
  | inr s ↦
      let (d, h, last) = >>=-eq-ok (marshal_header _ dst) _ (rw s at e) in
      sym (length-second _ _ r last)
      ∙ rw (length-write, length-write, length-write, length-write)
          (length-marshal_header _ dst d h)
]

length-marshal_load_stat :
    (x : LoadStat) (dst : List ℕ) (r : ℕ × List ℕ)
    → marshal_load_stat x dst ≡ ok r
    → length r.1 ≡ length dst
unfolding marshal_load_stat
length-marshal_load_stat x dst r e = elim (Bool-cases (ltb (length dst) load_stat_size)) [
  | inl s ↦ cc (rw s at e)
  | inr s ↦
      let (d, h, last) = >>=-eq-ok (marshal_header _ dst) _ (rw s at e) in
      sym (length-second _ _ r last)
      ∙ rw (length-write, length-write) (length-marshal_header _ dst d h)
]

-- No datagram, or one, to `src`, of at most 38 bytes and at most 16 bytes more than came in.
abbrev pub Modest : Addr → List ℕ → List Datagram → Type 0
Modest src b out =
    (out ≡ [])
    ⊎ ((d : Datagram) × (out ≡ d ∷ [])
        × (d.to ≡ src)
        × (length d.payload ≤ echo_size)
        × (length d.payload ≤ length b + cookie_size))

send_if_ok-Modest :
    (src : Addr) (b : List ℕ) (n : ℕ) (m : Result WireError (ℕ × List ℕ))
    (datagram : List ℕ → Datagram)
    → ((r : ℕ × List ℕ) → m ≡ ok r → length (datagram r.1).payload ≡ n)
    → ((out : List ℕ) → (datagram out).to ≡ src)
    → n ≤ echo_size
    → n ≤ length b + cookie_size
    → Modest src b (send_if_ok m datagram)
send_if_ok-Modest src b n (err e) datagram size back p q = inl refl
send_if_ok-Modest src b n (ok r) datagram size back p q = inr (
  datagram r.1,
  refl,
  back r.1,
  subst (λ m. m ≤ echo_size) (sym (size r refl)) p,
  subst (λ m. m ≤ length b + cookie_size) (sym (size r refl)) q,
)

probe_length : (b : List ℕ) (p : Probe) → unmarshal_probe b ≡ ok p → probe_size ≤ length b
unfolding unmarshal_probe
probe_length b p e =
    let (h, eh, rest) = >>=-eq-ok (unmarshal_header b) _ e in
    elim (Bool-cases (ltb (length b) probe_size)) [
      | inl s ↦ cc (rw s at rest)
      | inr s ↦ length_enough (length b) probe_size s
    ]

header_length : (b : List ℕ) (h : Header) → unmarshal_header b ≡ ok h → header_size ≤ length b
unfolding unmarshal_header
header_length b h e = elim (Bool-cases (ltb (length b) header_size)) [
  | inl s ↦ cc (rw (s, unmarshal_header) at e)
  | inr s ↦ length_enough (length b) header_size s
]

echo_probe-Modest :
    (b : List ℕ) (tos : ℕ) (src : Addr) (wall : ℤ) → Modest src b (echo_probe b tos src wall)
unfolding echo_probe
echo_probe-Modest b tos src wall = elim (Result-cases (unmarshal_probe b)) [
  | inr (e, bad) ↦ rw (bad, echo_probe) (inl refl)
  | inl (p, good) ↦
      rw (good, echo_probe)
        (send_if_ok-Modest src b echo_size
          (marshal_echo (echo_fields p tos wall) (replicate echo_size 0)) _
          (λ r e. length-marshal_echo _ _ r e ∙ length-replicate {A = ℕ} echo_size 0) (λ out. refl)
          (omega arith) (omega (arith, probe_length b p good)))
]

send_cookie-Modest :
    (hmac : List ℕ → List ℕ → List ℕ) (s : Server) (b : List ℕ) (session : ℕ) (src : Addr)
    → header_size ≤ length b
    → Modest src b (send_cookie hmac s session src)
unfolding send_cookie
send_cookie-Modest hmac s b session src n =
    send_if_ok-Modest src b (header_size + cookie_size)
      (marshal_header _ (replicate (header_size + cookie_size) 0)) _
      (λ r e.
        length-write r.1 header_size _
        ∙ length-marshal_header _ _ r e
        ∙ length-replicate {A = ℕ} (header_size + cookie_size) 0)
      (λ out. refl) (omega arith) (omega arith)

on_load-Modest :
    (addr_string : Addr → String) (s : Server) (b : List ℕ) (src : Addr) (now : ℕ) (wall : ℤ)
    → header_size ≤ length b
    → Modest src b (on_load addr_string s (length b) src now wall).1
unfolding on_load
on_load-Modest addr_string s b src now wall n =
    due (leb load_report_interval (now - (counter_of (lookup (addr_string src) s.loads) now).last))
  where
    stat : LoadStat
    stat = record {
      header = record { type = 0; session = 0; seq = 0 };
      bytes_recv = ((counter_of (lookup (addr_string src) s.loads) now).bytes + length b) % 2 ^ 64;
      t_server_nanos = wall;
    }

    due :
        (report : Bool)
        → Modest src b (
            if report
            then send_if_ok
                (marshal_load_stat stat (replicate load_stat_size 0))
                (λ out. record { to = src; payload = out; tos = none })
            else [])
    due false = inl refl
    due true =
        send_if_ok-Modest src b load_stat_size (marshal_load_stat stat (replicate load_stat_size 0))
          _ (λ r e. length-marshal_load_stat _ _ r e ∙ length-replicate {A = ℕ} load_stat_size 0)
          (λ out. refl) (omega arith) (omega arith)

-- Whatever the packet, the server answers with no datagram or with one, which goes to the packet's
-- source, has at most 38 bytes, and is at most 16 bytes longer than the packet.
pub handle_replies :
    (addr_string : Addr → String) (hmac : List ℕ → List ℕ → List ℕ) (s : Server) (b : List ℕ)
    (tos : ℕ) (src : Addr) (now : ℕ) (wall : ℤ)
    → Modest src b (handle addr_string hmac s b tos src now wall).1
handle_replies addr_string hmac s b tos src now wall =
    handle-each addr_string hmac s b tos src now wall (λ r. Modest src b r.1) (inl refl)
      (λ h good. send_cookie-Modest hmac s b h.session src (header_length b h good))
      (echo_probe-Modest b tos src wall)
      (λ h good. on_load-Modest addr_string s b src now wall (header_length b h good))
      (λ h good is_start. inl refl) (λ h good is_stop. inl refl)
