-- ===== src/Protocol/Start/RoundTrip.antt =====
-- A Start request that is written is read back.
use qoe_test_harness.Prelude.{
  ℕ, zero, suc, ◌+◌, ◌≤◌, ◌≡◌, refl, sym, ap, ◌∙◌, List, [], ◌∷◌, ◌++◌, ok, length, take, drop,
  arith, not_short, length-drop, length-append, drop-drop, drop-append_left, take-append_left,
  append_assoc,
}
use qoe_test_harness.Protocol.Bytes.{
  be, be_value, write, put_uint64, put_uint32, put_byte, uint64, uint32, byte_at,
}
use qoe_test_harness.Protocol.Bytes.Numbers.{be_value-be, be_value-byte}
use qoe_test_harness.Protocol.Bytes.Writes.{writes_from, flat}
use qoe_test_harness.Protocol.Header.{header_size, header_bytes}
use qoe_test_harness.Protocol.Header.RoundTrip.{marshal_header-eq, read_header}
use qoe_test_harness.Protocol.Handshake.{cookie_size, copy_array}
use qoe_test_harness.Protocol.Start.{
  Start, IsStart, sent_start, start_size, start_bytes, marshal_start, unmarshal_start,
}

-- An array takes its length of a longer buffer.
pub copy_array-eq_take : (n : ℕ) (bs : List ℕ) → n ≤ length bs → copy_array n bs ≡ take n bs
copy_array-eq_take zero [] h = refl
copy_array-eq_take zero (b ∷ bs) h = refl
copy_array-eq_take (suc n) [] h = absurd (omega arith)
copy_array-eq_take (suc n) (b ∷ bs) h = ap (λ t. b ∷ t) (copy_array-eq_take n bs (omega arith))

take-append_length : (n : ℕ) (xs ys : List ℕ) → length xs ≡ n → take n (xs ++ ys) ≡ xs
take-append_length n xs ys e = ap (λ k. take k (xs ++ ys)) (sym e) ∙ take-append_left xs ys

drop-append_length : (n : ℕ) (xs ys : List ℕ) → length xs ≡ n → drop n (xs ++ ys) ≡ ys
drop-append_length n xs ys e = ap (λ k. drop k (xs ++ ys)) (sym e) ∙ drop-append_left xs ys

-- The stores behind the cookie, which ends at `o`.
abbrev tail_stores : Start → List ℕ → ℕ → List ℕ
tail_stores s d o =
    put_byte (put_uint32 (put_uint64 d o s.rate_bps) (o + 8) s.duration_ms) (o + 8 + 4) s.marking

abbrev start_parts : Start → List (List ℕ)
start_parts s = s.cookie ∷ be 8 s.rate_bps ∷ be 4 s.duration_ms ∷ (s.marking ∷ []) ∷ []

body_length : (s : Start) → IsStart s → length (flat (start_parts s)) ≡ 29
body_length s v = length-append s.cookie _ ∙ omega (arith, v.cookie_length)

start_stores :
    (s : Start) (dst : List ℕ)
    → IsStart s
    → start_size ≤ length dst
    → tail_stores s (write (header_bytes s.header ++ drop header_size dst) header_size s.cookie) 36
      ≡ start_bytes s ++ drop start_size dst
start_stores s dst v n =
    ap (tail_stores s (write (header_bytes s.header ++ drop header_size dst) header_size s.cookie))
      {x = 36} {y = header_size + length s.cookie} (omega (arith, v.cookie_length))
    ∙ writes_from (start_parts s) (header_bytes s.header) (drop header_size dst)
        (omega (arith, body_length s v, length-drop header_size dst))
    ∙ ap (λ k. start_bytes s ++ drop k (drop header_size dst)) (body_length s v)
    ∙ ap (λ r. start_bytes s ++ r) (drop-drop header_size 29 dst)

sent_start-IsStart : (s : Start) → IsStart s → IsStart (sent_start s)
sent_start-IsStart s v = record {
  is_header = omega (arith, v.is_header.session_u64, v.is_header.seq_u64);
  cookie_length = v.cookie_length;
  cookie_bytes = v.cookie_bytes;
  rate_u64 = v.rate_u64;
  duration_u32 = v.duration_u32;
  marking_byte = v.marking_byte;
}

pub marshal_start-eq :
    (s : Start) (dst : List ℕ)
    → IsStart s
    → start_size ≤ length dst
    → marshal_start s dst ≡ ok (start_size, start_bytes (sent_start s) ++ drop start_size dst)
unfolding marshal_start
marshal_start-eq s dst v n = rw (not_short (length dst) start_size n) (
    rw (marshal_header-eq (sent_start s).header dst (omega arith))
      (ap (λ d. ok (start_size, d)) (start_stores (sent_start s) dst (sent_start-IsStart s v) n)))

module _ (s : Start) (rest : List ℕ) (v : IsStart s) where
  abbrev packet : List ℕ
  packet = start_bytes s ++ rest

  abbrev behind_cookie : List ℕ
  behind_cookie = be 8 s.rate_bps ++ (be 4 s.duration_ms ++ (s.marking ∷ rest))

  body : drop header_size packet ≡ s.cookie ++ behind_cookie
  body = append_assoc s.cookie (be 8 s.rate_bps ++ (be 4 s.duration_ms ++ (s.marking ∷ []))) rest

  tail : drop 36 packet ≡ behind_cookie
  tail =
      sym (drop-drop 20 16 packet)
      ∙ ap (drop 16) body
      ∙ drop-append_length 16 s.cookie behind_cookie v.cookie_length

  long : start_size ≤ length packet
  long = omega (
    arith,
    ap length body,
    length-drop header_size packet,
    length-append s.cookie behind_cookie,
    v.cookie_length,
  )

  cookie_read : copy_array cookie_size (drop header_size packet) ≡ s.cookie
  cookie_read =
      copy_array-eq_take cookie_size (drop header_size packet)
        (omega (arith, long, length-drop header_size packet))
      ∙ ap (take 16) body
      ∙ take-append_length 16 s.cookie behind_cookie v.cookie_length

  rate_read : uint64 packet 36 ≡ s.rate_bps
  rate_read = ap (λ t. be_value 0 (take 8 t)) tail ∙ be_value-be 8 s.rate_bps v.rate_u64

  duration_read : uint32 packet 44 ≡ s.duration_ms
  duration_read =
      ap (λ t. be_value 0 (take 4 t)) (sym (drop-drop 36 8 packet) ∙ ap (drop 8) tail)
      ∙ be_value-be 4 s.duration_ms v.duration_u32

  marking_read : byte_at packet 48 ≡ s.marking
  marking_read =
      ap (λ t. be_value 0 (take 1 t)) (sym (drop-drop 36 12 packet) ∙ ap (drop 12) tail)
      ∙ be_value-byte s.marking

  pub read_start : unmarshal_start packet ≡ ok s
  unfolding unmarshal_start
  read_start = rw (read_header s.header _ v.is_header) (
      rw (not_short (length packet) start_size long) (λ i. ok (record {
        header = s.header;
        cookie = cookie_read i;
        rate_bps = rate_read i;
        duration_ms = duration_read i;
        marking = marking_read i;
      })))

-- A Start request that is sent in a long enough buffer is read back with the type of a Start, and
-- the buffer keeps its length and what lies behind the packet.
pub unmarshal-marshal_start :
    (s : Start) (dst : List ℕ)
    → IsStart s
    → start_size ≤ length dst
    → (d : List ℕ) × (marshal_start s dst ≡ ok (start_size, d))
      × (unmarshal_start d ≡ ok (sent_start s))
      × (length d ≡ length dst)
      × (drop start_size d ≡ drop start_size dst)
unmarshal-marshal_start s dst v n =
    let w = sent_start-IsStart s v in
    let t = sent_start s in
    let size : length (start_bytes t) ≡ start_size = omega (arith, body_length t w) in
    (
      start_bytes t ++ drop start_size dst,
      marshal_start-eq s dst v n,
      read_start t (drop start_size dst) w,
      omega (
        arith,
        length-append (start_bytes t) (drop start_size dst),
        size,
        length-drop start_size dst,
      ),
      drop-append_length start_size (start_bytes t) (drop start_size dst) size,
    )
