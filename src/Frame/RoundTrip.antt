-- ===== src/Frame/RoundTrip.antt =====
-- Decoding what was encoded.
use usmp.Prelude.{
  ℕ, ◌+◌, ◌^◌, ◌≤◌, ◌<◌, ◌≡◌, refl, Bool, true, false, ◌++◌, Bytes, AreBytes, length, arith,
  ltb_of_le, ==_refl, length-append, take-append,
}
use usmp.Errors.{ok, ◌>>=◌}
use usmp.Types.{
  PacketType, Frame, type_int, usmp_version, usmp_magic, usmp_max_payload, usmp_header_size,
}
use usmp.Types.Laws.{packet_type-type_int}
use usmp.Struct.Laws.{u16_digits, u32_digits}
use usmp.Frame.Crc.{compute_frame_crc}
use usmp.Frame.{encode_frame, check_header, decode_frame, check_crc}
use usmp.Frame.Wire.{frame_crc, frame_bytes, header_fields-eq, encode_frame-eq}

-- The frame that `encode_frame` puts on the wire.
abbrev pub sent_frame : PacketType → ℕ → Bytes → Frame
sent_frame t seq payload = record {
  magic = usmp_magic;
  version = usmp_version;
  type = t;
  seq = seq;
  length = length payload;
  crc = frame_crc t seq payload;
  payload = payload;
}

module _ (t : PacketType) (seq : ℕ) (payload : Bytes) (hs : seq < 2 ^ 32)
    (hl : length payload ≤ usmp_max_payload) where
  computed_crc-eq :
      compute_frame_crc usmp_magic usmp_version (type_int t) seq (length payload) payload
      ≡ ok (frame_crc t seq payload)
  unfolding compute_frame_crc
  computed_crc-eq = rw (header_fields-eq t seq (length payload) hs hl)

  -- The checksum of the frame itself passes, whether or not it is verified.
  check_crc-sent :
      (verify : Bool)
      → check_crc verify
          (frame_crc t seq payload)
          (compute_frame_crc usmp_magic usmp_version (type_int t) seq (length payload) payload)
        ≡ ok tt
  unfolding check_crc
  check_crc-sent true = rw (computed_crc-eq, ==_refl (frame_crc t seq payload))
  check_crc-sent false = refl

  pub decode-frame_bytes :
      (rest : Bytes) (verify : Bool)
      → decode_frame (frame_bytes t seq payload ++ rest) verify ≡ ok (sent_frame t seq payload)
  unfolding decode_frame check_header
  decode-frame_bytes rest verify =
      let encoded : Bytes = frame_bytes t seq payload ++ rest in
      let long : usmp_header_size + length payload ≤ length encoded =
        omega (arith, length-append {0} payload rest) in
      rw (
        ltb_of_le (length encoded) usmp_header_size (omega arith),
        u16_digits (length payload),
        u32_digits seq,
        u16_digits (frame_crc t seq payload),
        ltb_of_le usmp_max_payload (length payload) hl,
        ltb_of_le (length encoded) (usmp_header_size + length payload) long,
        take-append payload rest (length payload) refl,
        check_crc-sent verify,
        packet_type-type_int t,
      )

-- Encoding a payload of at most 480 bytes with a 32-bit sequence number succeeds, and decoding the
-- result gives the frame back, whatever bytes follow and whether or not the checksum is verified.
pub decode-encode :
    (t : PacketType) (payload : Bytes) (seq : ℕ) (rest : Bytes) (verify : Bool)
    → length payload ≤ usmp_max_payload
    → seq < 2 ^ 32
    → AreBytes payload
    → (encode_frame t payload seq usmp_version >>= λ encoded. decode_frame (encoded ++ rest) verify)
      ≡ ok (sent_frame t seq payload)
decode-encode t payload seq rest verify hl hs hb =
    rw (encode_frame-eq t payload seq hl hs hb) (decode-frame_bytes t seq payload hs hl rest verify)
