-- ===== src/Server/Authorised.antt =====
-- Who can make the server send bulk traffic, and how much.
use Prim.Native.String.{String}
use qoe_test_harness.Prelude.{
  ℕ, ◌*◌, ◌≤◌, ◌<◌, ◌≡◌, ◌⊎◌, inl, inr, refl, subst, false, not, some, List, ok, ◌==◌,
  if◌then◌else◌, arith, Bool-cases, if-both, if-each, Option-cases, Result-cases,
}
use mathlib.Core.Option.{some-injective}
use qoe_test_harness.Prelude.Int.{ℤ}
use qoe_test_harness.Prelude.Maps.{lookup, adjust, nat_key, text_key, lookup-adjust}
use qoe_test_harness.Protocol.Header.{Header, msg_start, unmarshal_header}
use qoe_test_harness.Protocol.Handshake.{make_cookie, verify_cookie}
use qoe_test_harness.Protocol.Handshake.Binding.{verify_cookie_iff}
use qoe_test_harness.Protocol.Start.{Start, unmarshal_start}
use qoe_test_harness.Server.Dispatch.{handle-each}
use qoe_test_harness.Server.{
  Addr, Server, DownFlow, millisecond, max_down_rate_bps, max_down_duration_ms, cancel, on_load,
  start_down, stop_down, on_start, on_stop, handle,
}

module _ (addr_string : Addr → String) (hmac : List ℕ → List ℕ → List ℕ) (s : Server) (b : List ℕ)
    (src : Addr) where
  -- The packet is of the type of a start request, with the cookie of its session for its source address, and the flow
  -- goes to that source, at 1 Gbit/s at most and for 30 s at most.
  pub record Authorised (f : DownFlow) : Type 0 where
    pub header : Header
    pub has_header : unmarshal_header b ≡ ok header
    pub is_start : header.type ≡ msg_start
    pub st : Start
    pub parsed : unmarshal_start b ≡ ok st
    pub proven : st.cookie ≡ make_cookie hmac s.secret st.header.session src.ip
    pub to_source : f.src ≡ src
    pub capped_rate : f.rate ≤ max_down_rate_bps
    pub asked_rate : f.rate ≤ st.rate_bps
    pub capped_time : f.lifetime ≤ max_down_duration_ms * millisecond
    pub some_time : 0 < f.lifetime

  -- Every flow that is not there before is authorised.
  record OnlyAuthorised (after : Server) : Type 0 where
    only :
        (id : ℕ) (f : DownFlow)
        → lookup id after.flows ≡ some f
        → ((g : DownFlow) × (lookup id s.flows ≡ some g)) ⊎ Authorised f

  same : OnlyAuthorised s
  same = record { only = λ id f e. inl (f, e) }

  cancelled_only :
      (df id : ℕ) (f : DownFlow)
      → lookup id (adjust df cancel s.flows) ≡ some f
      → (g : DownFlow) × (lookup id s.flows ≡ some g)
  cancelled_only df id f e = let (g, p, q) = lookup-adjust df id cancel f s.flows e in (g, p)

  stop_down-OnlyAuthorised : (key : String) → OnlyAuthorised (stop_down addr_string s key)
  unfolding stop_down
  stop_down-OnlyAuthorised key = elim (Option-cases (lookup key s.downs)) [
    | inl n ↦ rw (n, stop_down) same
    | inr (df, p) ↦ rw (p, stop_down) (record { only = λ id f e. inl (cancelled_only df id f e) })
  ]

  start_down-OnlyAuthorised :
      (rate lifetime marking : ℕ)
      → Authorised (record {
        src = src;
        rate = rate;
        lifetime = lifetime;
        marking = marking;
        cancelled = false;
      })
      → OnlyAuthorised (start_down addr_string s src rate lifetime marking)
  unfolding start_down lookup
  start_down-OnlyAuthorised rate lifetime marking good = record {
    only = λ id f e. from_lookup id f e;
  }
    where
      new : DownFlow
      new = record {
        src = src;
        rate = rate;
        lifetime = lifetime;
        marking = marking;
        cancelled = false;
      }

      added :
          (id : ℕ) (f : DownFlow) (rest : List (ℕ × DownFlow))
          → OnlyAuthorised (record s { flows = rest })
          → (if s.next_flow == id then some new else lookup id rest) ≡ some f
          → ((g : DownFlow) × (lookup id s.flows ≡ some g)) ⊎ Authorised f
      added id f rest w h = elim (Bool-cases (s.next_flow == id)) [
        | inl here ↦ inr (subst Authorised (some-injective new f (rw here at h)) good)
        | inr other ↦ w.only id f (rw other at h)
      ]

      from_lookup :
          (id : ℕ) (f : DownFlow)
          → lookup id (start_down addr_string s src rate lifetime marking).flows ≡ some f
          → ((g : DownFlow) × (lookup id s.flows ≡ some g)) ⊎ Authorised f
      from_lookup id f e = elim (Option-cases (lookup (addr_string src) s.downs)) [
        | inl n ↦ added id f s.flows same (rw (n, start_down) at e)
        | inr (old, p) ↦
            added id f (adjust old cancel s.flows)
              (record { only = λ i g q. inl (cancelled_only old i g q) }) (rw (p, start_down) at e)
      ]

  on_start-OnlyAuthorised :
      (h : Header)
      → unmarshal_header b ≡ ok h
      → h.type ≡ msg_start
      → OnlyAuthorised (on_start addr_string hmac s b src)
  unfolding on_start
  on_start-OnlyAuthorised h has_header is_start = elim (Result-cases (unmarshal_start b)) [
    | inr (e, bad) ↦ rw (bad, on_start) same
    | inl (st, good) ↦
        rw (good, on_start)
          (if-each OnlyAuthorised
            (not (verify_cookie hmac s.secret st.header.session src.ip st.cookie)) (λ refused. same)
            (λ accepted. start_down-OnlyAuthorised _ _ st.marking (record {
              header = h;
              has_header = has_header;
              is_start = is_start;
              st = st;
              parsed = good;
              proven =
                  (verify_cookie_iff hmac s.secret st.header.session src.ip st.cookie).0
                    (ground arith);
              to_source = refl;
              capped_rate = ground arith;
              asked_rate = ground arith;
              capped_time = ground arith;
              some_time = ground arith;
            })))
  ]

  on_stop-OnlyAuthorised : (h : Header) → OnlyAuthorised (on_stop addr_string hmac s h b src)
  unfolding on_stop
  on_stop-OnlyAuthorised h =
      if-both OnlyAuthorised _ same
        (if-both OnlyAuthorised _ same (stop_down-OnlyAuthorised (addr_string src)))

  -- A packet makes the server start a flow only if it is a start request that carries the cookie of
  -- its session and its source address; the flow goes to that source, at no more than the rate asked
  -- for and 1 Gbit/s, and for at most 30 s.
  pub handle-Authorised :
      (tos now : ℕ) (wall : ℤ) (id : ℕ) (f : DownFlow)
      → lookup id (handle addr_string hmac s b tos src now wall).0.flows ≡ some f
      → ((g : DownFlow) × (lookup id s.flows ≡ some g)) ⊎ Authorised f
  unfolding on_load
  handle-Authorised tos now wall id f = all.only id f
    where
      all : OnlyAuthorised (handle addr_string hmac s b tos src now wall).0
      all =
          handle-each addr_string hmac s b tos src now wall (λ r. OnlyAuthorised r.0) same
            (λ h good. same) same (λ h good. record { only = λ i g e. inl (g, e) })
            on_start-OnlyAuthorised (λ h good is_stop. on_stop-OnlyAuthorised h)
