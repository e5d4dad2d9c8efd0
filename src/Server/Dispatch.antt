-- ===== src/Server/Dispatch.antt =====
-- A property of what every handler returns is one of what `handle` returns.
use Prim.Native.String.{String}
use qoe_test_harness.Prelude.{
  ℕ, ◌≡◌, inl, inr, List, [], ok, length, ◌==◌, ==_iff, if-both, if-each, Result-cases,
}
use qoe_test_harness.Prelude.Int.{ℤ}
use qoe_test_harness.Protocol.Header.{Header, msg_hello, msg_probe, msg_start, unmarshal_header}
use qoe_test_harness.Protocol.Start.{msg_stop}
use qoe_test_harness.Protocol.Load.{msg_load}
use qoe_test_harness.Server.{
  Addr, Server, Datagram, send_cookie, echo_probe, on_load, on_start, on_stop, dispatch, handle,
}

module _ {ℓ} (addr_string : Addr → String) (hmac : List ℕ → List ℕ → List ℕ) (s : Server)
    (b : List ℕ) (tos : ℕ) (src : Addr) (now : ℕ) (wall : ℤ)
    (P : Server × List Datagram → Type ℓ) where
  pub handle-each :
      P (s, [])
      → ((h : Header) → unmarshal_header b ≡ ok h → P (s, send_cookie hmac s h.session src))
      → P (s, echo_probe b tos src wall)
      → ((h : Header)
          → unmarshal_header b ≡ ok h
          → P (on_load addr_string s (length b) src now wall))
      → ((h : Header)
          → unmarshal_header b ≡ ok h
          → h.type ≡ msg_start
          → P (on_start addr_string hmac s b src, []))
      → ((h : Header)
          → unmarshal_header b ≡ ok h
          → h.type ≡ msg_stop
          → P (on_stop addr_string hmac s h b src, []))
      → P (handle addr_string hmac s b tos src now wall)
  unfolding handle
  handle-each dropped hello probe load start stop = elim (Result-cases (unmarshal_header b)) [
    | inr (e, bad) ↦ rw (bad, handle) dropped
    | inl (h, good) ↦ rw (good, handle) (dispatched h good)
  ]
    where
      dispatched :
          (h : Header)
          → unmarshal_header b ≡ ok h
          → P (dispatch addr_string hmac s h b tos src now wall)
      dispatched h good = if-both P (h.type == msg_hello) (hello h good) (
          if-both P (h.type == msg_probe) probe (
            if-both P (h.type == msg_load) (load h good) (
              if-each P (h.type == msg_start)
                (λ is_start. start h good ((==_iff h.type msg_start).0 is_start))
                (λ no_start.
                  if-each P (h.type == msg_stop)
                    (λ is_stop. stop h good ((==_iff h.type msg_stop).0 is_stop))
                    (λ other. dropped)))))
