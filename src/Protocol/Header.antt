-- ===== src/Protocol/Header.antt =====
-- core/protocol/header.go: the 20-byte prefix of every packet. `marshal` returns the number of bytes
-- written and the buffer afterwards; on an error the buffer is untouched.
pub mod RoundTrip
pub mod Parse
use qoe_test_harness.Prelude.{
  ℕ, suc, ◌+◌, ◌^◌, ◌<◌, ◌≡◌, List, [], ◌∷◌, ◌++◌, Result, ok, err, length, ltb, ◌==◌, not,
  if◌then◌else◌,
}
use qoe_test_harness.Protocol.Bytes.{
  IsByte, IsU64, be, write, put_uint16, put_uint64, put_byte, uint16, uint64, byte_at,
}

abbrev pub magic : ℕ
magic = 0x4C34

abbrev pub version : ℕ
version = 1

abbrev pub header_size : ℕ
header_size = 2 + 1 + 1 + 8 + 8

-- MsgType: a byte, with these values in use.
abbrev pub msg_hello : ℕ
msg_hello = 1

abbrev pub msg_cookie : ℕ
msg_cookie = 2

abbrev pub msg_probe : ℕ
msg_probe = 3

abbrev pub msg_echo : ℕ
msg_echo = 4

abbrev pub msg_start : ℕ
msg_start = 5

pub data WireError : Type 0 where
  short bad_magic bad_version : WireError

pub record Header : Type 0 where
  pub type : ℕ
  pub session : ℕ
  pub seq : ℕ

-- The ranges of the Go field types.
pub record IsHeader (h : Header) : Type 0 where
  pub type_byte : IsByte h.type
  pub session_u64 : IsU64 h.session
  pub seq_u64 : IsU64 h.seq

unfoldable pub marshal_header : Header → List ℕ → Result WireError (ℕ × List ℕ)
marshal_header h dst =
    if ltb (length dst) header_size
    then err short
    else let d1 = put_uint16 dst 0 magic in
      let d2 = put_byte d1 2 version in
      let d3 = put_byte d2 3 h.type in
      let d4 = put_uint64 d3 4 h.session in ok (header_size, put_uint64 d4 12 h.seq)

unfoldable pub unmarshal_header : List ℕ → Result WireError Header
unmarshal_header b =
    if ltb (length b) header_size
    then err short
    else if not (uint16 b 0 == magic)
    then err bad_magic
    else if not (byte_at b 2 == version)
    then err bad_version
    else ok (record { type = byte_at b 3; session = uint64 b 4; seq = uint64 b 12 })

-- The 20 bytes of a header.
abbrev pub header_bytes : Header → List ℕ
header_bytes h = be 2 magic ++ (version ∷ h.type ∷ (be 8 h.session ++ be 8 h.seq))
