-- ===== src/Frame/Failures.antt =====
-- The exceptions of the decoder.
use usmp.Prelude.{
  ◌/◌, ◌%◌, ◌++◌, ℕ, ◌^◌, ◌<◌, ◌≡◌, Bool, true, Bytes, AreBytes, get_or, zero, suc, [], ◌∷◌, take,
  drop, arith,
}
use usmp.Errors.{Error, is_frame_error, ok, err}
use usmp.Types.{usmp_header_size}
use usmp.Struct.{unpack_u16, unpack_u32}
use usmp.Struct.Laws.{pack_u8_lt, pack_u16_lt, pack_u32_lt}
use usmp.Frame.Crc.{header_fields, compute_frame_crc, crc16}
use usmp.Frame.{check_header, check_crc, decode_frame}

pub get_or-lt : (bytes : Bytes) (i : ℕ) → AreBytes bytes → get_or bytes i 0 < 256
get_or-lt [] i h = omega arith
get_or-lt (x ∷ xs) zero h = h.0
get_or-lt (x ∷ xs) (suc i) h = get_or-lt xs i h.1

header_fields-ok :
    (m v t s l : ℕ)
    → m < 65536
    → v < 256
    → t < 256
    → s < 2 ^ 32
    → l < 65536
    → (header : Bytes) × (header_fields m v t s l ≡ ok header)
unfolding header_fields
header_fields-ok m v t s l hm hv ht hs hl = (
  m % 256
      ∷ m / 256
      ∷ v
      ∷ t
      ∷ s % 256
      ∷ s / 256 % 256
      ∷ s / 65536 % 256
      ∷ s / 16777216
      ∷ l % 256
      ∷ l / 256
      ∷ [],
  rw (pack_u16_lt m hm, pack_u8_lt v hv, pack_u8_lt t ht, pack_u32_lt s hs, pack_u16_lt l hl),
)

-- The fields of a received header pack again without `struct.error`.
pub compute_frame_crc-ok :
    (bytes payload : Bytes)
    → AreBytes bytes
    → (crc : ℕ) × (compute_frame_crc
          (unpack_u16 bytes 0)
          (get_or bytes 2 0)
          (get_or bytes 3 0)
          (unpack_u32 bytes 4)
          (unpack_u16 bytes 8)
          payload
        ≡ ok crc)
unfolding compute_frame_crc
compute_frame_crc-ok bytes payload h =
    let b : (i : ℕ) → get_or bytes i 0 < 256 = λ i. get_or-lt bytes i h in
    let (header, e) =
      header_fields-ok (unpack_u16 bytes 0) (get_or bytes 2 0) (get_or bytes 3 0)
        (unpack_u32 bytes 4) (unpack_u16 bytes 8) (omega (arith, b 0, b 1)) (b 2) (b 3)
        (omega (arith, b 4, b 5, b 6, b 7)) (omega (arith, b 8, b 9)) in
    (crc16 (header ++ payload), rw e)

check_header_error :
    (bytes : Bytes) (e : Error) → check_header bytes ≡ err e → is_frame_error e ≡ true
unfolding check_header
check_header_error bytes e h = ground arith

check_crc_error :
    (verify : Bool) (crc computed : ℕ) (e : Error)
    → check_crc verify crc (ok computed) ≡ err e
    → is_frame_error e ≡ true
unfolding check_crc
check_crc_error verify crc computed e h = ground arith

-- Whatever bytes it is given, `decode_frame` raises nothing but a `FrameError`.
pub decode_frame_error :
    (bytes : Bytes) (verify : Bool) (e : Error)
    → AreBytes bytes
    → decode_frame bytes verify ≡ err e
    → is_frame_error e ≡ true
unfolding decode_frame
decode_frame_error bytes verify e hb h =
    let payload : Bytes = take (unpack_u16 bytes 8) (drop usmp_header_size bytes) in
    let (crc, computed) = compute_frame_crc-ok bytes payload hb in
    ground (
      arith,
      computed,
      check_header_error bytes e,
      check_crc_error verify (unpack_u16 bytes 10) crc e,
    )
