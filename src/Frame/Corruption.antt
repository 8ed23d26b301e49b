-- ===== src/Frame/Corruption.antt =====
-- The decoder on a frame with one byte of its payload changed.
use usmp.Prelude.{
  ℕ, ◌+◌, ◌^◌, ◌≤◌, ◌<◌, ◌≡◌, ◌≢◌, true, ◌==◌, Bool-cases, inl, inr, eq_of_==, ◌∷◌, ◌++◌, Bytes,
  AreBytes, AreBytes-append, AreBytes-left, AreBytes-right, length, take_all, arith, ltb_of_le,
  length-append,
}
use usmp.Errors.{crc_error, err}
use usmp.Types.{PacketType, type_int, usmp_magic, usmp_version, usmp_max_payload, usmp_header_size}
use usmp.Struct.Laws.{u16_digits, u32_digits}
use usmp.Frame.Crc.{compute_frame_crc, crc16}
use usmp.Frame.Crc.Detect.{crc16_single_byte}
use usmp.Frame.{decode_frame, check_header, check_crc}
use usmp.Frame.Wire.{header_bytes, header_bytes-AreBytes, sum_bytes, frame_crc, header_fields-eq}

-- The frame of one payload with another payload of the same length put in its place.
abbrev pub tampered_bytes : PacketType → ℕ → Bytes → Bytes → Bytes
tampered_bytes t seq payload other =
    (header_bytes t seq (length payload) ++ sum_bytes (frame_crc t seq payload)) ++ other

module _ (t : PacketType) (seq : ℕ) (payload other : Bytes) (hs : seq < 2 ^ 32)
    (hl : length payload ≤ usmp_max_payload) (same : length other ≡ length payload) where
  check_crc_differs :
      frame_crc t seq payload ≢ crc16 (header_bytes t seq (length payload) ++ other)
      → check_crc true
          (frame_crc t seq payload)
          (compute_frame_crc usmp_magic usmp_version (type_int t) seq (length payload) other)
        ≡ err crc_error
  unfolding check_crc compute_frame_crc
  check_crc_differs ne =
      rw (header_fields-eq t seq (length payload) hs hl)
        (elim (Bool-cases
          (frame_crc t seq payload == crc16 (header_bytes t seq (length payload) ++ other))) [
            | inl e ↦ absurd (ne (eq_of_== _ _ e))
            | inr e ↦ rw e
          ])

  decode_differs :
      frame_crc t seq payload ≢ crc16 (header_bytes t seq (length payload) ++ other)
      → decode_frame (tampered_bytes t seq payload other) true ≡ err crc_error
  unfolding decode_frame check_header
  decode_differs ne =
      let bytes : Bytes = tampered_bytes t seq payload other in
      rw (
        ltb_of_le (length bytes) usmp_header_size (omega arith),
        u16_digits (length payload),
        u32_digits seq,
        u16_digits (frame_crc t seq payload),
        ltb_of_le usmp_max_payload (length payload) hl,
        ltb_of_le (length bytes) (usmp_header_size + length payload) (omega arith),
        take_all other (length payload) (omega arith),
        check_crc_differs ne,
      )

-- A frame with a payload of at most 480 bytes and a 32-bit sequence number, in which one byte of
-- the payload has been changed, is refused with `CRCError`.
pub decode_tampered :
    (t : PacketType) (seq : ℕ) (xs ys : Bytes) (a b : ℕ)
    → seq < 2 ^ 32
    → length (xs ++ a ∷ ys) ≤ usmp_max_payload
    → AreBytes (xs ++ a ∷ ys)
    → b < 256
    → a ≢ b
    → decode_frame (tampered_bytes t seq (xs ++ a ∷ ys) (xs ++ b ∷ ys)) true ≡ err crc_error
decode_tampered t seq xs ys a b hs hl hb lb ne =
    let n : ℕ = length (xs ++ a ∷ ys) in
    let head : Bytes = header_bytes t seq n in
    let after : AreBytes (a ∷ ys) = AreBytes-right xs (a ∷ ys) hb in
    decode_differs t seq (xs ++ a ∷ ys) (xs ++ b ∷ ys) hs hl
      (omega (arith, length-append {0} xs (a ∷ ys), length-append {0} xs (b ∷ ys)))
      (crc16_single_byte (head ++ xs) ys a b
        (AreBytes-append head xs (header_bytes-AreBytes t seq n hs hl)
          (AreBytes-left xs (a ∷ ys) hb))
        after.1 after.0 lb ne)
