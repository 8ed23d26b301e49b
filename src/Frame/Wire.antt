-- ===== src/Frame/Wire.antt =====
-- The bytes of a frame written out, and `encode_frame` as those bytes.
use usmp.Prelude.{
  ℕ, ◌/◌, ◌%◌, ◌^◌, ◌≤◌, ◌<◌, ◌≡◌, [], ◌∷◌, ◌++◌, Bytes, AreBytes, AreBytes-append, length, arith,
  ltb_of_le, ltb_of_lt,
}
use usmp.Errors.{ok, err, struct_error, payload_error}
use usmp.Types.{PacketType, type_int, usmp_version, usmp_max_payload}
use usmp.Struct.Laws.{pack_u8_lt, pack_u16_lt, pack_u32_lt, pack_u32_ge}
use usmp.Types.Laws.{type_int-lt}
use usmp.Frame.Crc.{crc16, header_fields, compute_frame_crc}
use usmp.Frame.Crc.Bound.{crc16-lt}
use usmp.Frame.{encode_frame}

-- The ten header bytes that the checksum covers.
abbrev pub header_bytes : PacketType → ℕ → ℕ → Bytes
header_bytes t seq size =
    0xcd
    ∷ 0xab
    ∷ 0x02
    ∷ type_int t
    ∷ seq % 256
    ∷ seq / 256 % 256
    ∷ seq / 65536 % 256
    ∷ seq / 16777216
    ∷ size % 256
    ∷ size / 256
    ∷ []

abbrev pub frame_crc : PacketType → ℕ → Bytes → ℕ
frame_crc t seq payload = crc16 (header_bytes t seq (length payload) ++ payload)

abbrev pub sum_bytes : ℕ → Bytes
sum_bytes crc = crc % 256 ∷ crc / 256 ∷ []

abbrev pub frame_bytes : PacketType → ℕ → Bytes → Bytes
frame_bytes t seq payload =
    (header_bytes t seq (length payload) ++ sum_bytes (frame_crc t seq payload)) ++ payload

pub header_fields-eq :
    (t : PacketType) (seq size : ℕ)
    → seq < 2 ^ 32
    → size ≤ usmp_max_payload
    → header_fields 0xabcd usmp_version (type_int t) seq size ≡ ok (header_bytes t seq size)
unfolding header_fields
header_fields-eq t seq size hs hl = rw (
  pack_u16_lt 0xabcd (omega arith),
  pack_u8_lt usmp_version (omega arith),
  pack_u8_lt (type_int t) (type_int-lt t),
  pack_u32_lt seq hs,
  pack_u16_lt size (omega arith),
)

pub header_bytes-AreBytes :
    (t : PacketType) (seq size : ℕ)
    → seq < 2 ^ 32
    → size ≤ usmp_max_payload
    → AreBytes (header_bytes t seq size)
header_bytes-AreBytes t seq size hs hl = omega (arith, type_int-lt t)

pub frame_crc-lt :
    (t : PacketType) (seq : ℕ) (payload : Bytes)
    → seq < 2 ^ 32
    → length payload ≤ usmp_max_payload
    → AreBytes payload
    → frame_crc t seq payload < 65536
frame_crc-lt t seq payload hs hl hb = crc16-lt (header_bytes t seq (length payload) ++ payload) (
    AreBytes-append (header_bytes t seq (length payload)) payload
      (header_bytes-AreBytes t seq (length payload) hs hl) hb)

-- In range, `encode_frame` gives the frame's bytes.
pub encode_frame-eq :
    (t : PacketType) (payload : Bytes) (seq : ℕ)
    → length payload ≤ usmp_max_payload
    → seq < 2 ^ 32
    → AreBytes payload
    → encode_frame t payload seq usmp_version ≡ ok (frame_bytes t seq payload)
unfolding encode_frame compute_frame_crc
encode_frame-eq t payload seq hl hs hb = rw (
  ltb_of_le usmp_max_payload (length payload) hl,
  header_fields-eq t seq (length payload) hs hl,
  pack_u16_lt (frame_crc t seq payload) (frame_crc-lt t seq payload hs hl hb),
)

-- An oversized payload raises `PayloadError`.
pub encode_frame_oversized :
    (t : PacketType) (payload : Bytes) (seq version : ℕ)
    → usmp_max_payload < length payload
    → encode_frame t payload seq version ≡ err payload_error
unfolding encode_frame
encode_frame_oversized t payload seq version h = rw (ltb_of_lt usmp_max_payload (length payload) h)

-- A sequence number past 32 bits raises `struct.error`.
pub encode_frame_seq_overflow :
    (t : PacketType) (payload : Bytes) (seq : ℕ)
    → length payload ≤ usmp_max_payload
    → 2 ^ 32 ≤ seq
    → encode_frame t payload seq usmp_version ≡ err struct_error
unfolding encode_frame compute_frame_crc header_fields
encode_frame_seq_overflow t payload seq hl hs = rw (
  ltb_of_le usmp_max_payload (length payload) hl,
  pack_u16_lt 0xabcd (omega arith),
  pack_u8_lt usmp_version (omega arith),
  pack_u8_lt (type_int t) (type_int-lt t),
  pack_u32_ge seq hs,
)
