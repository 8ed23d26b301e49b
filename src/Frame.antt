-- ===== src/Frame.antt =====
-- sdk/python/src/usmp/_frame.py: frames to bytes and back, and frames off a stream.
pub mod Crc
pub mod Wire
pub mod Failures
pub mod Stream
pub mod Corruption
pub mod Canonical
pub mod RoundTrip
use usmp.Prelude.{
  ℕ, ◌+◌, ◌*◌, Bool, true, not, ◌&&◌, Option, none, some, [], ◌++◌, Bytes, length, take, drop,
  get_or, ltb, ◌==◌, if◌then◌else◌,
}
use usmp.Errors.{
  Error, frame_error, magic_error, version_error, payload_error, crc_error, incomplete_read_error,
  Result, ok, err, ◌>>=◌, ◌>>◌, raise_if,
}
use usmp.Types.{
  PacketType, type_int, packet_type, Frame, usmp_magic, usmp_version, usmp_header_size,
  usmp_max_payload,
}
use usmp.Struct.{pack_u16, unpack_u16, unpack_u32}
use Crc.{header_fields, compute_frame_crc}

unfoldable pub encode_frame : PacketType → Bytes → ℕ → ℕ → Result Bytes
encode_frame type payload seq version = do
  raise_if (ltb usmp_max_payload (length payload)) payload_error
  crc ← compute_frame_crc usmp_magic version (type_int type) seq (length payload) payload
  header ← header_fields usmp_magic version (type_int type) seq (length payload)
  sum ← pack_u16 crc
  ok ((header ++ sum) ++ payload)

-- `except ValueError: raise FrameError`.
abbrev pub known_type : Result PacketType → Result PacketType
known_type (ok t) = ok t
known_type (err e) = err frame_error

-- `if verify_crc: ...`.
unfoldable pub check_crc : Bool → ℕ → Result ℕ → Result (Unit {0})
check_crc verify_crc crc computed =
    if verify_crc
    then (do expected ← computed; raise_if (not (crc == expected)) crc_error)
    else ok tt

-- The tests of `decode_frame` on the header, in the order of the code.
unfoldable pub check_header : Bytes → Result (Unit {0})
check_header bytes = do
  raise_if (ltb (length bytes) usmp_header_size) frame_error
  raise_if (not (unpack_u16 bytes 0 == usmp_magic)) magic_error
  raise_if (not (get_or bytes 2 0 == usmp_version)) version_error
  raise_if (ltb usmp_max_payload (unpack_u16 bytes 8)) payload_error
  raise_if (ltb (length bytes) (usmp_header_size + unpack_u16 bytes 8)) payload_error

unfoldable pub decode_frame : Bytes → Bool → Result Frame
decode_frame bytes verify_crc = do
  check_header bytes
  let magic = unpack_u16 bytes 0
  let version = get_or bytes 2 0
  let type = get_or bytes 3 0
  let seq = unpack_u32 bytes 4
  let size = unpack_u16 bytes 8
  let crc = unpack_u16 bytes 10
  let payload = take size (drop usmp_header_size bytes)
  check_crc verify_crc crc (compute_frame_crc magic version type seq size payload)
  packet_type ← known_type (packet_type type)
  ok (record {
    magic = magic;
    version = version;
    type = packet_type;
    seq = seq;
    length = size;
    crc = crc;
    payload = payload;
  })

-- A read that awaits more data than there is gives `none`: it stays pending.
abbrev pub Reading : Type 0 → Type 0 → Type 0
Reading R A = R → Option (Result A × R)

-- `read_frame(reader, verify_crc)`, for any reader with a `readexactly`.
module _ {R : Type 0} (readexactly : ℕ → Reading R Bytes) where
  -- `await reader.readexactly(length) if length > 0 else b""`.
  unfoldable pub read_payload : ℕ → Reading R Bytes
  read_payload size r = if ltb 0 size then readexactly size r else some (ok [], r)

  unfoldable pub read_rest : Bytes → Bool → Reading R Frame
  unfolding read_payload
  read_rest header verify_crc r =
      if not (unpack_u16 header 0 == usmp_magic)
      then some (err magic_error, r)
      else if ltb usmp_max_payload (unpack_u16 header 8)
      then some (err payload_error, r)
      else elim (read_payload (unpack_u16 header 8) r) [
        | none ↦ none
        | some (ok payload, r') ↦ some (decode_frame (header ++ payload) verify_crc, r')
        | some (err e, r') ↦ some (err e, r')
      ]

  unfoldable pub read_frame : Bool → Reading R Frame
  unfolding read_rest
  read_frame verify_crc r = elim (readexactly usmp_header_size r) [
    | none ↦ none
    | some (ok header, r') ↦ read_rest header verify_crc r'
    | some (err e, r') ↦ some (err e, r')
  ]

-- `asyncio.StreamReader`: what has arrived and is not read, and whether the peer has closed.
pub record StreamReader : Type 0 where
  pub buffer : Bytes
  pub eof : Bool

-- At the end of the stream it raises, and drops what is left.
unfoldable pub stream_readexactly : ℕ → Reading StreamReader Bytes
stream_readexactly n r =
    if not (ltb (length r.buffer) n)
    then some (ok (take n r.buffer), record r { buffer = drop n r.buffer })
    else if r.eof
    then some (err incomplete_read_error, record r { buffer = [] })
    else none
