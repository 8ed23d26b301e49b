-- ===== src/Tests/Frames.antt =====
-- The theorems on frames and their encryption at concrete inputs.
use usmp.Prelude.{◌+◌, ◌^◌, ◌<◌, ◌≡◌, refl, true, [], ◌∷◌, ◌++◌, Bytes, take, replicate, arith}
use usmp.Errors.{
  ◌>>=◌, ok, err, payload_error, struct_error, crc_error, is_frame_error, frame_error,
}
use usmp.Types.{data_packet, usmp_header_size, usmp_version}
use usmp.Frame.{check_header, encode_frame, decode_frame}
use usmp.Frame.Wire.{
  frame_crc, frame_crc-lt, frame_bytes, encode_frame_oversized, encode_frame_seq_overflow,
}
use usmp.Frame.RoundTrip.{sent_frame, decode-frame_bytes, decode-encode}
use usmp.Frame.Canonical.{encode-decode}
use usmp.Frame.Corruption.{tampered_bytes, decode_tampered}
use usmp.Frame.Failures.{decode_frame_error}
use usmp.Crypto.{derive_session_keys}
use usmp.Crypto.Seal.{aad_bytes, build_aad-eq}
use usmp.Crypto.Aad.{Header, aad_of, build_aad_injective}
use usmp.Tests.{toy}

abbrev hi : Bytes
hi = 104 ∷ 105 ∷ []

decode-encode_example :
    (encode_frame data_packet hi 3 usmp_version >>= λ encoded. decode_frame (encoded ++ hi) true)
    ≡ ok (sent_frame data_packet 3 hi)
decode-encode_example =
    decode-encode data_packet hi 3 hi true (omega arith) (omega arith) (omega arith)

hi_crc-lt : frame_crc data_packet 3 hi < 65536
hi_crc-lt = frame_crc-lt data_packet 3 hi (omega arith) (omega arith) (omega arith)

decoded_hi : decode_frame (frame_bytes data_packet 3 hi) true ≡ ok (sent_frame data_packet 3 hi)
decoded_hi = decode-frame_bytes data_packet 3 hi (omega arith) (omega arith) [] true

encode-decode_example :
    encode_frame data_packet hi 3 2
    ≡ ok (take (usmp_header_size + 2) (frame_bytes data_packet 3 hi))
encode-decode_example =
    encode-decode (frame_bytes data_packet 3 hi) (sent_frame data_packet 3 hi)
      (omega (arith, hi_crc-lt)) decoded_hi

decode_tampered_example :
    decode_frame (tampered_bytes data_packet 3 (104 ∷ 105 ∷ []) (104 ∷ 106 ∷ [])) true
    ≡ err crc_error
decode_tampered_example =
    decode_tampered data_packet 3 (104 ∷ []) [] 105 106 (omega arith) (omega arith) (omega arith)
      (omega arith) (λ e. omega arith)

short_frame : decode_frame hi true ≡ err frame_error
unfolding decode_frame check_header
short_frame = refl

decode_frame_error_example : is_frame_error frame_error ≡ true
decode_frame_error_example = decode_frame_error hi true frame_error (omega arith) short_frame

encode_frame_oversized_example : encode_frame data_packet (replicate 481 0) 3 2 ≡ err payload_error
encode_frame_oversized_example =
    encode_frame_oversized data_packet (replicate 481 0) 3 2 (omega arith)

encode_frame_seq_overflow_example : encode_frame data_packet hi (2 ^ 32) 2 ≡ err struct_error
encode_frame_seq_overflow_example =
    encode_frame_seq_overflow data_packet hi (2 ^ 32) (omega arith) (omega arith)

abbrev toy_key : Bytes
toy_key = replicate 32 7

abbrev hi_header : Header
hi_header = record { magic = 0xabcd; version = 2; type = 5; seq = 3; size = 30 }

hi_aad : aad_of hi_header ≡ ok (aad_bytes 0xabcd 2 5 3 30)
hi_aad =
    build_aad-eq 0xabcd 2 5 3 30 (omega arith) (omega arith) (omega arith) (omega arith)
      (omega arith)

build_aad_injective_example : hi_header ≡ hi_header
build_aad_injective_example =
    build_aad_injective hi_header hi_header (aad_bytes 0xabcd 2 5 3 30) hi_aad hi_aad

toy_keys :
    derive_session_keys toy hi (replicate 32 9) hi (replicate 32 9) (replicate 32 9)
    ≡ ok (toy_key, toy_key)
unfolding derive_session_keys
toy_keys = refl
