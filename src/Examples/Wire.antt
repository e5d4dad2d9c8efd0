-- ===== src/Examples/Wire.antt =====
-- core/protocol at concrete packets.
use qoe_test_harness.Prelude.{
  ℕ, ◌≡◌, ◌↔◌, ◌⊎◌, refl, true, List, [], ◌∷◌, ◌++◌, ok, err, length, take, drop, replicate, arith,
}
use qoe_test_harness.Prelude.Int.{negsuc}
use qoe_test_harness.Protocol.Header.{
  Header, IsHeader, bad_magic, header_size, header_bytes, unmarshal_header,
}
use qoe_test_harness.Protocol.Header.Parse.{unmarshal_header-accepts}
use qoe_test_harness.Protocol.Packet.{Probe, IsProbe, probe_size, probe_bytes, unmarshal_probe}
use qoe_test_harness.Protocol.Packet.Parse.{unmarshal_probe-accepts}
use qoe_test_harness.Protocol.Start.{Start, sent_start, start_size, marshal_start, unmarshal_start}
use qoe_test_harness.Protocol.Start.RoundTrip.{unmarshal-marshal_start}
use qoe_test_harness.Protocol.Handshake.{make_cookie, verify_cookie}
use qoe_test_harness.Protocol.Handshake.Binding.{
  verify_cookie_iff, verify_cookie-make_cookie, Collision,
}

abbrev zeros : ℕ → List ℕ
zeros n = replicate n 0

abbrev a_header : Header
a_header = record { type = 9; session = 77; seq = 3 }

abbrev a_probe : Probe
a_probe = record { header = a_header; t_send_nanos = negsuc 4; tos_intended = 181 }

abbrev a_start : Start
a_start = record {
  header = a_header;
  cookie = replicate 16 7;
  rate_bps = 120_000_000;
  duration_ms = 20_000;
  marking = 0;
}

bad_magic_test : unmarshal_header (zeros 20) ≡ err bad_magic
unfolding unmarshal_header
bad_magic_test = refl

unmarshal_header-accepts_example :
    (unmarshal_header (header_bytes a_header) ≡ ok a_header)
    ↔ (IsHeader a_header × (take header_size (header_bytes a_header) ≡ header_bytes a_header))
unmarshal_header-accepts_example =
    unmarshal_header-accepts (header_bytes a_header) a_header (omega arith)

unmarshal-marshal_start_example :
    (d : List ℕ) × (marshal_start a_start (zeros 49) ≡ ok (start_size, d))
    × (unmarshal_start d ≡ ok (sent_start a_start))
    × (length d ≡ 49)
    × (drop start_size d ≡ [])
unmarshal-marshal_start_example =
    unmarshal-marshal_start a_start (zeros 49) (omega arith) (omega arith)

unmarshal_probe-accepts_example :
    (unmarshal_probe (probe_bytes a_probe) ≡ ok a_probe)
    ↔ (IsProbe a_probe × (take probe_size (probe_bytes a_probe) ≡ probe_bytes a_probe))
unmarshal_probe-accepts_example =
    unmarshal_probe-accepts (probe_bytes a_probe) (omega arith) a_probe

-- A stand-in for the MAC: the message itself.
abbrev plain_mac : List ℕ → List ℕ → List ℕ
plain_mac key message = message ++ key

own_cookie :
    verify_cookie plain_mac
      (5 ∷ [])
      77
      (10 ∷ 0 ∷ 0 ∷ 1 ∷ [])
      (make_cookie plain_mac (5 ∷ []) 77 (10 ∷ 0 ∷ 0 ∷ 1 ∷ []))
    ≡ true
own_cookie = (verify_cookie_iff plain_mac (5 ∷ []) 77 (10 ∷ 0 ∷ 0 ∷ 1 ∷ []) _).1 refl

verify_cookie-make_cookie_example :
    (◌≡◌ {A = ℕ} 77 77 × (◌≡◌ {A = List ℕ} (10 ∷ 0 ∷ 0 ∷ 1 ∷ []) (10 ∷ 0 ∷ 0 ∷ 1 ∷ [])))
    ⊎ Collision plain_mac (5 ∷ [])
verify_cookie-make_cookie_example =
    verify_cookie-make_cookie plain_mac (5 ∷ []) 77 77 (10 ∷ 0 ∷ 0 ∷ 1 ∷ []) (10 ∷ 0 ∷ 0 ∷ 1 ∷ [])
      (omega arith) (omega arith) own_cookie
