-- ===== src/Frame/Canonical.antt =====
-- The bytes that `decode_frame` accepts, against those that `encode_frame` writes.
use usmp.Prelude.{
  suc, ◌∙◌, not, ◌==◌, ℕ, ◌+◌, ◌^◌, ◌≤◌, ◌<◌, ◌≡◌, Bool, true, ◌∷◌, Bytes, AreBytes, length, take,
  drop, arith, get_or, AreBytes-take, AreBytes-drop, length-take,
}
use usmp.Errors.{crc_error, raise_if, ok}
use usmp.Types.{
  PacketType, Frame, type_int, usmp_version, usmp_magic, usmp_max_payload, usmp_header_size,
  packet_type,
}
use usmp.Types.Laws.{type_int-packet_type}
use usmp.Struct.{unpack_u16, unpack_u32}
use usmp.Frame.Crc.{compute_frame_crc}
use usmp.Frame.{check_header, encode_frame, decode_frame, check_crc}
use usmp.Frame.Wire.{frame_crc, header_fields-eq, encode_frame-eq}

-- What the header of accepted bytes looks like.
pub record IsHeader (bytes : Bytes) : Type 0 where
  pub magic : unpack_u16 bytes 0 ≡ usmp_magic
  pub version : get_or bytes 2 0 ≡ usmp_version
  pub fits : unpack_u16 bytes 8 ≤ usmp_max_payload
  pub whole : usmp_header_size + unpack_u16 bytes 8 ≤ length bytes

check_header-IsHeader : (bytes : Bytes) → check_header bytes ≡ ok tt → IsHeader bytes
unfolding check_header
check_header-IsHeader bytes h = ground arith

-- What `decode_frame` has checked and read when it succeeds.
pub record Decoded (bytes : Bytes) (verify : Bool) (f : Frame) : Type 0 where
  pub header : check_header bytes ≡ ok tt
  pub magic : f.magic ≡ unpack_u16 bytes 0
  pub version : f.version ≡ get_or bytes 2 0
  pub type : packet_type (get_or bytes 3 0) ≡ ok f.type
  pub seq : f.seq ≡ unpack_u32 bytes 4
  pub size : f.length ≡ unpack_u16 bytes 8
  pub crc : f.crc ≡ unpack_u16 bytes 10
  pub payload : f.payload ≡ take f.length (drop usmp_header_size bytes)
  pub checked :
      check_crc verify f.crc
        (compute_frame_crc f.magic f.version (get_or bytes 3 0) f.seq f.length f.payload)
      ≡ ok tt

pub decode-Decoded :
    (bytes : Bytes) (verify : Bool) (f : Frame)
    → decode_frame bytes verify ≡ ok f
    → Decoded bytes verify f
unfolding decode_frame
decode-Decoded bytes verify f h = ground arith

-- A verified checksum is the one that `encode_frame` writes.
check_crc-frame_crc :
    (t : PacketType) (seq crc : ℕ) (payload : Bytes)
    → seq < 2 ^ 32
    → length payload ≤ usmp_max_payload
    → check_crc true crc
        (compute_frame_crc usmp_magic usmp_version (type_int t) seq (length payload) payload)
      ≡ ok tt
    → frame_crc t seq payload ≡ crc
unfolding check_crc compute_frame_crc
check_crc-frame_crc t seq crc payload hs hl h =
    let h' : raise_if (not (crc == frame_crc t seq payload)) crc_error ≡ ok tt =
      rw (header_fields-eq t seq (length payload) hs hl) at h in
    ground arith

-- What `decode_frame` accepts with its checksum verified is what `encode_frame` writes for the
-- frame that it returns, up to the declared length.
pub encode-decode :
    (bytes : Bytes) (f : Frame)
    → AreBytes bytes
    → decode_frame bytes true ≡ ok f
    → encode_frame f.type f.payload f.seq f.version ≡ ok (take (usmp_header_size + f.length) bytes)
encode-decode (b0 ∷ b1 ∷ b2 ∷ b3 ∷ b4 ∷ b5 ∷ b6 ∷ b7 ∷ b8 ∷ b9 ∷ b10 ∷ b11 ∷ rest) f hb h =
    let bytes : Bytes = b0 ∷ b1 ∷ b2 ∷ b3 ∷ b4 ∷ b5 ∷ b6 ∷ b7 ∷ b8 ∷ b9 ∷ b10 ∷ b11 ∷ rest in
    let d : Decoded bytes true f = decode-Decoded bytes true f h in
    let g : IsHeader bytes = check_header-IsHeader bytes d.header in
    let size : length f.payload ≡ f.length =
      rw d.payload (omega (arith, length-take {0} f.length rest, d.size, g.whole)) in
    let ty : type_int f.type ≡ b3 = type_int-packet_type b3 d.type in
    let hs : f.seq < 2 ^ 32 = omega (arith, d.seq) in
    let hl : length f.payload ≤ usmp_max_payload = omega (arith, d.size, g.fits) in
    let pb : AreBytes f.payload =
      rw d.payload (AreBytes-take f.length rest (AreBytes-drop 12 bytes hb)) in
    let twelve : usmp_header_size + f.length
        ≡ suc (suc (suc (suc (suc (suc (suc (suc (suc (suc (suc (suc f.length))))))))))) =
      omega arith in
    let magic : f.magic ≡ usmp_magic = d.magic ∙ g.magic in
    let version : f.version ≡ usmp_version = d.version ∙ g.version in
    let checked : frame_crc f.type f.seq f.payload ≡ f.crc =
      check_crc-frame_crc f.type f.seq f.crc f.payload hs hl
        (cc (d.checked, ty, size, magic, version)) in
    rw (version, encode_frame-eq f.type f.payload f.seq hl hs pb, twelve)
      (ground (arith, d.seq, d.size, d.crc, g.magic, g.version, d.payload, checked, ty, size))
encode-decode short f hb h =
    absurd
      (omega (arith, (check_header-IsHeader short (decode-Decoded short true f h).header).whole))
