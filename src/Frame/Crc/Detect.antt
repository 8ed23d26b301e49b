-- ===== src/Frame/Crc/Detect.antt =====
-- The checksum of a string, against that of the string with one byte changed.
use usmp.Prelude.{
  ℕ, zero, suc, ◌/◌, ◌%◌, ◌^◌, ◌<◌, ◌≡◌, ◌≢◌, refl, ap, sym, ◌∙◌, bit_xor, bit_and, [], ◌∷◌, ◌++◌,
  Bytes, AreBytes, arith,
}
use usmp.Prelude.Bits.{
  bit_xor_lt, bit_xor_top, bit_xor_cancel, bit_xor_comm, bit_and_step, bit_and-zero,
}
use usmp.Frame.Crc.{crc_bit, crc_bits, crc_byte, crc_from, crc16}
use usmp.Frame.Crc.Bound.{crc_bit-lt, crc_byte-lt, crc_from-lt}

bit_and-one : (a : ℕ) → bit_and a 1 ≡ a % 2
bit_and-one a = omega (arith, bit_and_step a 1, bit_and-zero (a / 2))

xor_right_injective : (a b c : ℕ) → bit_xor a c ≡ bit_xor b c → a ≡ b
xor_right_injective a b c h =
    sym (bit_xor_cancel a c) ∙ ap (λ (x : ℕ). bit_xor x c) h ∙ bit_xor_cancel b c

-- The polynomial's top bit tells which branch was taken.
crc_bit_injective : (a b : ℕ) → a < 2 ^ 16 → b < 2 ^ 16 → crc_bit a ≡ crc_bit b → a ≡ b
unfolding crc_bit
crc_bit_injective a b ha hb h = ground (
  arith,
  bit_and-one a,
  bit_and-one b,
  bit_xor_top 15 (a / 2) 0xa001 (omega arith) (omega arith) (omega arith),
  bit_xor_top 15 (b / 2) 0xa001 (omega arith) (omega arith) (omega arith),
  xor_right_injective (a / 2) (b / 2) 0xa001,
)

crc_bits_injective : (n a b : ℕ) → a < 2 ^ 16 → b < 2 ^ 16 → crc_bits n a ≡ crc_bits n b → a ≡ b
unfolding crc_bits
crc_bits_injective zero a b ha hb h = h
crc_bits_injective (suc n) a b ha hb h =
    crc_bit_injective a b ha hb
      (crc_bits_injective n (crc_bit a) (crc_bit b) (crc_bit-lt a ha) (crc_bit-lt b hb) h)

-- Two registers that differ still differ after the same byte.
crc_byte_injective :
    (a b byte : ℕ)
    → a < 2 ^ 16
    → b < 2 ^ 16
    → byte < 256
    → crc_byte a byte ≡ crc_byte b byte
    → a ≡ b
unfolding crc_byte
crc_byte_injective a b byte ha hb hy h = xor_right_injective a b byte (
    crc_bits_injective 8 (bit_xor a byte) (bit_xor b byte) (bit_xor_lt 16 a byte ha (omega arith))
      (bit_xor_lt 16 b byte hb (omega arith)) h)

-- One register takes different bytes to different registers.
crc_byte_byte_injective :
    (crc a b : ℕ) → crc < 2 ^ 16 → a < 256 → b < 256 → crc_byte crc a ≡ crc_byte crc b → a ≡ b
unfolding crc_byte
crc_byte_byte_injective crc a b hc ha hb h = xor_right_injective a b crc (
    bit_xor_comm a crc
    ∙ crc_bits_injective 8 (bit_xor crc a) (bit_xor crc b) (bit_xor_lt 16 crc a hc (omega arith))
        (bit_xor_lt 16 crc b hc (omega arith)) h
    ∙ bit_xor_comm crc b)

crc_from_injective :
    (a b : ℕ) (bytes : Bytes)
    → a < 2 ^ 16
    → b < 2 ^ 16
    → AreBytes bytes
    → crc_from a bytes ≡ crc_from b bytes
    → a ≡ b
unfolding crc_from
crc_from_injective a b [] ha hb hy h = h
crc_from_injective a b (y ∷ ys) ha hb hy h = crc_byte_injective a b y ha hb hy.0 (
    crc_from_injective (crc_byte a y) (crc_byte b y) ys (crc_byte-lt a y ha hy.0)
      (crc_byte-lt b y hb hy.0) hy.1 h)

crc_from-append :
    (crc : ℕ) (xs ys : Bytes) → crc_from crc (xs ++ ys) ≡ crc_from (crc_from crc xs) ys
unfolding crc_from
crc_from-append crc [] ys = refl
crc_from-append crc (x ∷ xs) ys = crc_from-append (crc_byte crc x) xs ys

-- Byte strings that differ in exactly one byte have different checksums.
pub crc16_single_byte :
    (xs ys : Bytes) (a b : ℕ)
    → AreBytes xs
    → AreBytes ys
    → a < 256
    → b < 256
    → a ≢ b
    → crc16 (xs ++ a ∷ ys) ≢ crc16 (xs ++ b ∷ ys)
unfolding crc16 crc_from
crc16_single_byte xs ys a b hx hy ha hb ne h =
    let crc : ℕ = crc_from 0xffff xs in
    let hc : crc < 2 ^ 16 = crc_from-lt 0xffff xs (omega arith) hx in
    let after : crc_from (crc_byte crc a) ys ≡ crc_from (crc_byte crc b) ys =
      sym (crc_from-append 0xffff xs (a ∷ ys)) ∙ h ∙ crc_from-append 0xffff xs (b ∷ ys) in
    ne (
      crc_byte_byte_injective crc a b hc ha hb (
        crc_from_injective (crc_byte crc a) (crc_byte crc b) ys (crc_byte-lt crc a hc ha)
          (crc_byte-lt crc b hc hb) hy after))
