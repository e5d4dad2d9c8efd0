-- ===== src/Server/Reachability.antt =====
-- The states that a server comes into, and what holds in all of them.
use Prim.Native.String.{String}
use mathlib.Core.Option.{some-injective}
use qoe_test_harness.Prelude.{
  ℕ, ◌≡◌, ◌≢◌, ◌⊎◌, inl, inr, refl, sym, ap, ◌∙◌, true, false, not, some, List, [], ◌∷◌, Bool-cases,
  if-both, if-each, Result-cases,
}
use qoe_test_harness.Prelude.Int.{ℤ}
use qoe_test_harness.Prelude.Texts.{str_eq}
use qoe_test_harness.Prelude.Maps.{lookup, adjust, nat_key, text_key, lookup-adjust_inv}
use qoe_test_harness.Protocol.Header.{Header}
use qoe_test_harness.Protocol.Handshake.{verify_cookie}
use qoe_test_harness.Protocol.Start.{unmarshal_start}
use qoe_test_harness.Server.Dispatch.{handle-each}
use qoe_test_harness.Server.{
  Addr, Server, DownFlow, listen, cancel, on_load, retire, cancel_all, close, on_start, on_stop,
  handle,
}
use qoe_test_harness.Server.Flows.{
  IsServer, listen-IsServer, start_down-IsServer, stop_down-IsServer, retire-IsServer,
}

module _ (addr_string : Addr → String) where
  cancel_all-found :
      (m : List (String × ℕ)) (flows : List (ℕ × DownFlow)) (id : ℕ) (f : DownFlow)
      → lookup id (cancel_all addr_string m flows) ≡ some f
      → (g : DownFlow) × (lookup id flows ≡ some g)
        × ((f.cancelled ≡ true) ⊎ ((f ≡ g) × ((k : String) → lookup k m ≢ some id)))
  unfolding cancel_all lookup
  cancel_all-found [] flows id f e = (f, e, inr (refl, λ k p. cc))
  cancel_all-found ((key, df) ∷ m) flows id f e =
      let (g, q, r) = cancel_all-found m (adjust df cancel flows) id f e in
      elim (lookup-adjust_inv df id cancel g flows q) [
        | inl (same, g0, q0, e0) ↦ (
          g0,
          q0,
          inl (elim r [ inl off ↦ off | inr (fg, others) ↦ ap (λ x. x.cancelled) (fg ∙ e0) ]),
        )
        | inr (ne, q0) ↦ (
          g,
          q0,
          elim r [
            | inl off ↦ inl off
            | inr (fg, others) ↦ inr (
              fg,
              λ k.
                  if-each (λ o. o ≢ some id) (str_eq key k) (λ this p. ne (some-injective df id p))
                    (λ that. others k),
            )
          ],
        )
      ]

  -- `close` leaves no flow uncancelled.
  close-cancels :
      (s : Server) (id : ℕ) (f : DownFlow)
      → IsServer addr_string s
      → lookup id (close addr_string s).flows ≡ some f
      → f.cancelled ≡ true
  unfolding close
  close-cancels s id f w e =
      let (g, q, r) = cancel_all-found s.downs s.flows id f e in
      elim r [
        | inl off ↦ off
        | inr (fg, others) ↦ elim (Bool-cases f.cancelled) [
          | inl off ↦ off
          | inr on ↦
              absurd
                (others (addr_string g.src) (w.live id g q (sym (ap (λ x. x.cancelled) fg) ∙ on)))
        ]
      ]

  close-IsServer :
      (s : Server) → IsServer addr_string s → IsServer addr_string (close addr_string s)
  unfolding close lookup
  close-IsServer s w = record {
    registered = λ k id e. cc;
    live = λ id f e c. cc (c, close-cancels s id f w e);
    fresh = λ id f e. let (g, q, r) = cancel_all-found s.downs s.flows id f e in w.fresh id g q;
  }

  module _ (hmac : List ℕ → List ℕ → List ℕ) where
    -- The states that a server comes into: a packet arrives, a flow ends, the server is closed.
    pub data Reachable (secret : List ℕ) : Server → Type 0 where
      started : Reachable secret (listen secret)
      packet :
          {s : Server} (b : List ℕ) (tos : ℕ) (src : Addr) (now : ℕ) (wall : ℤ)
          → Reachable secret s
          → Reachable secret (handle addr_string hmac s b tos src now wall).0
      ended :
          {s : Server} (df : ℕ) → Reachable secret s → Reachable secret (retire addr_string s df)
      closed : {s : Server} → Reachable secret s → Reachable secret (close addr_string s)

    module _ (s : Server) (w : IsServer addr_string s) (b : List ℕ) (src : Addr) where
      on_start-IsServer : IsServer addr_string (on_start addr_string hmac s b src)
      unfolding on_start
      on_start-IsServer = elim (Result-cases (unmarshal_start b)) [
        | inr (e, bad) ↦ rw (bad, on_start) w
        | inl (st, good) ↦
            rw (good, on_start)
              (if-both (IsServer addr_string)
                (not (verify_cookie hmac s.secret st.header.session src.ip st.cookie)) w
                (start_down-IsServer addr_string s w src _ _ st.marking))
      ]

      on_stop-IsServer : (h : Header) → IsServer addr_string (on_stop addr_string hmac s h b src)
      unfolding on_stop
      on_stop-IsServer h = if-both (IsServer addr_string) _ w (
          if-both (IsServer addr_string) _ w (stop_down-IsServer addr_string s w (addr_string src)))

      handle-IsServer :
          (tos now : ℕ) (wall : ℤ)
          → IsServer addr_string (handle addr_string hmac s b tos src now wall).0
      unfolding on_load
      handle-IsServer tos now wall =
          handle-each addr_string hmac s b tos src now wall (λ r. IsServer addr_string r.0) w
            (λ h good. w) w
            (λ h good. record { registered = w.registered; live = w.live; fresh = w.fresh })
            (λ h good is_start. on_start-IsServer) (λ h good is_stop. on_stop-IsServer h)

    -- In every state that a server comes into, the map of flows and the flows that run agree: each
    -- entry is a flow that runs for that source and is not cancelled, each such flow has its entry,
    -- and the number of the next flow is not in use.
    pub Reachable-IsServer :
        (secret : List ℕ) (s : Server) → Reachable secret s → IsServer addr_string s
    Reachable-IsServer secret s started = listen-IsServer addr_string secret
    Reachable-IsServer secret s (packet {s = t} b tos src now wall r) =
        handle-IsServer t (Reachable-IsServer secret t r) b src tos now wall
    Reachable-IsServer secret s (ended {s = t} df r) =
        retire-IsServer addr_string t (Reachable-IsServer secret t r) df
    Reachable-IsServer secret s (closed {s = t} r) =
        close-IsServer t (Reachable-IsServer secret t r)

    -- In every state that a server comes into, two flows for one source that are not cancelled are the
    -- same flow, and after a close every flow is cancelled.
    pub one_live_flow :
        (secret : List ℕ) (s : Server)
        → Reachable secret s
        → ((i j : ℕ) (f g : DownFlow)
            → lookup i s.flows ≡ some f
            → lookup j s.flows ≡ some g
            → f.cancelled ≡ false
            → g.cancelled ≡ false
            → addr_string f.src ≡ addr_string g.src
            → i ≡ j)
          × ((i : ℕ) (f : DownFlow)
              → lookup i (close addr_string s).flows ≡ some f
              → f.cancelled ≡ true)
    one_live_flow secret s r =
        let w = Reachable-IsServer secret s r in
        (
          (λ i j f g p q on on' same.
              some-injective i j
                (sym (w.live i f p on) ∙ ap (λ k. lookup k s.downs) same ∙ w.live j g q on')),
          (λ i f e. close-cancels s i f w e),
        )
