-- ===== src/Net/UpLoad/Reports.antt =====
-- The achieved rate of an upstream load, from the reports that the server sends.
use qoe_test_harness.Prelude.{
  ℕ, ◌-◌, ◌≡◌, refl, sym, ap, ◌∙◌, inl, inr, Bool, true, false, not, ◌&&◌, some, List, [], ◌∷◌,
  Result, ok, err, leb, if◌then◌else◌, Result-cases, if-false,
}
use qoe_test_harness.Prelude.Int.{pos, lt_int, eq_int}
use qoe_test_harness.Prelude.Floats.{Float64, zero_f}
use qoe_test_harness.Protocol.Header.{WireError}
use qoe_test_harness.Protocol.Load.{LoadStat, unmarshal_load_stat}
use qoe_test_harness.Net.UpLoad.{Loading, UdpLoad, sub_int64, span, on_report, on_packet}

module _ (fl : Float64) (seconds : ℕ → fl.F) where
  open fl use {F, mul, div, lt, of_ℕ, decimal, truncate}

  -- The receiver over a list of packets.
  abbrev pub on_packets : UdpLoad → List (List ℕ) → UdpLoad
  on_packets l [] = l
  on_packets l (b ∷ bs) = on_packets (on_packet fl seconds l b) bs

  -- The reports among the packets.
  abbrev pub if_report : Result WireError LoadStat → List LoadStat → List LoadStat
  if_report (ok st) rest = st ∷ rest
  if_report (err e) rest = rest

  abbrev pub reports : List (List ℕ) → List LoadStat
  reports [] = []
  reports (b ∷ bs) = if_report (unmarshal_load_stat b) (reports bs)

  -- Whether two reports bound a time in which bytes were counted.
  abbrev pub comparable : LoadStat → LoadStat → Bool
  comparable a b =
      not (eq_int a.t_server_nanos (pos 0))
      && lt_int a.t_server_nanos b.t_server_nanos
      && leb a.bytes_recv b.bytes_recv
      && lt (zero_f fl) (span fl seconds (sub_int64 b.t_server_nanos a.t_server_nanos))

  -- The bits per second between two reports, by the server's clock.
  abbrev pub rate_between : LoadStat → LoadStat → ℕ
  rate_between a b = truncate (
      div (mul (of_ℕ (b.bytes_recv - a.bytes_recv)) (decimal 8 0))
        (span fl seconds (sub_int64 b.t_server_nanos a.t_server_nanos)))

  -- The rate of the last two reports in a row that are comparable, or `x` if there are none.
  abbrev pub last_rate : ℕ → List LoadStat → ℕ
  last_rate x [] = x
  last_rate x (a ∷ []) = x
  last_rate x (a ∷ b ∷ rest) = last_rate (if comparable a b then rate_between a b else x) (b ∷ rest)

  -- A flow whose last report is `a`.
  abbrev after : Loading → LoadStat → Loading
  after f a = record f { last_bytes = a.bytes_recv; last_nanos = a.t_server_nanos }

  on_packet-report :
      (x : ℕ) (f : Loading) (b : List ℕ) (st : LoadStat)
      → unmarshal_load_stat b ≡ ok st
      → on_packet fl seconds (record { achieved = x; flow = some f }) b
        ≡ on_report fl seconds (record { achieved = x; flow = some f }) f st
  unfolding on_packet
  on_packet-report x f b st e = rw (e, on_packet) refl

  on_packet-other :
      (x : ℕ) (f : Loading) (b : List ℕ) (e : WireError)
      → unmarshal_load_stat b ≡ err e
      → on_packet fl seconds (record { achieved = x; flow = some f }) b
        ≡ record { achieved = x; flow = some f }
  unfolding on_packet
  on_packet-other x f b e p = rw (p, on_packet) refl

  on_report-after :
      (x : ℕ) (f : Loading) (a b : LoadStat)
      → on_report fl seconds (record { achieved = x; flow = some (after f a) }) (after f a) b
        ≡ record {
          achieved = if comparable a b then rate_between a b else x;
          flow = some (after f b);
        }
  unfolding on_report
  on_report-after x f a b = joined (comparable a b)
    where
      joined :
          (c : Bool)
          → ◌≡◌ {A = UdpLoad}
              (if c
                then record { achieved = rate_between a b; flow = some (after f b) }
                else record { achieved = x; flow = some (after f b) })
              (record { achieved = if c then rate_between a b else x; flow = some (after f b) })
      joined true = refl
      joined false = refl

  on_packets-after :
      (bs : List (List ℕ)) (x : ℕ) (f : Loading) (a : LoadStat)
      → (on_packets (record { achieved = x; flow = some (after f a) }) bs).achieved
        ≡ last_rate x (a ∷ reports bs)
  on_packets-after [] x f a = refl
  on_packets-after (b ∷ bs) x f a = elim (Result-cases (unmarshal_load_stat b)) [
    | inl (st, e) ↦
        ap (λ l. (on_packets l bs).achieved)
          (on_packet-report x (after f a) b st e ∙ on_report-after x f a st)
        ∙ on_packets-after bs (if comparable a st then rate_between a st else x) f st
        ∙ ap (λ r. last_rate x (a ∷ if_report r (reports bs))) (sym e)
    | inr (r, e) ↦
        ap (λ l. (on_packets l bs).achieved) (on_packet-other x (after f a) b r e)
        ∙ on_packets-after bs x f a
        ∙ ap (λ r. last_rate x (a ∷ if_report r (reports bs))) (sym e)
  ]

  on_report-first :
      (x : ℕ) (f : Loading) (st : LoadStat)
      → f.last_nanos ≡ pos 0
      → on_report fl seconds (record { achieved = x; flow = some f }) f st
        ≡ record { achieved = x; flow = some (after f st) }
  unfolding on_report
  on_report-first x f st new =
      let dt : F = span fl seconds (sub_int64 st.t_server_nanos f.last_nanos) in
      let measured : UdpLoad = record {
        achieved = truncate (div (mul (of_ℕ (st.bytes_recv - f.last_bytes)) (decimal 8 0)) dt);
        flow = some (after f st);
      } in
      let unmeasured : UdpLoad = record { achieved = x; flow = some (after f st) } in
      if-false
        (not (eq_int f.last_nanos (pos 0))
          && lt_int f.last_nanos st.t_server_nanos
          && leb f.last_bytes st.bytes_recv
          && lt (zero_f fl) dt)
        measured unmeasured
        (ap
          (λ z.
            not z
            && lt_int f.last_nanos st.t_server_nanos
            && leb f.last_bytes st.bytes_recv
            && lt (zero_f fl) dt)
          (ap (λ t. eq_int t (pos 0)) new))

  on_packets-first :
      (bs : List (List ℕ)) (x : ℕ) (f : Loading)
      → f.last_nanos ≡ pos 0
      → (on_packets (record { achieved = x; flow = some f }) bs).achieved ≡ last_rate x (reports bs)
  on_packets-first [] x f new = refl
  on_packets-first (b ∷ bs) x f new = elim (Result-cases (unmarshal_load_stat b)) [
    | inl (st, e) ↦
        ap (λ l. (on_packets l bs).achieved)
          (on_packet-report x f b st e ∙ on_report-first x f st new)
        ∙ on_packets-after bs x f st
        ∙ ap (λ r. last_rate x (if_report r (reports bs))) (sym e)
    | inr (r, e) ↦
        ap (λ l. (on_packets l bs).achieved) (on_packet-other x f b r e)
        ∙ on_packets-first bs x f new
        ∙ ap (λ r. last_rate x (if_report r (reports bs))) (sym e)
  ]

  -- While a flow that has had no report receives packets, the achieved rate is that of the last two reports in a row among them
  -- that bound a time by the server's clock in which the count did not fall, and as it was before if there are none: what is no
  -- report counts for nothing.
  pub on_packets_rate :
      (bs : List (List ℕ)) (l : UdpLoad) (f : Loading)
      → l.flow ≡ some f
      → f.last_nanos ≡ pos 0
      → (on_packets l bs).achieved ≡ last_rate l.achieved (reports bs)
  on_packets_rate bs l f running new =
      ap (λ o. (on_packets (record { achieved = l.achieved; flow = o }) bs).achieved) running
      ∙ on_packets-first bs l.achieved f new
