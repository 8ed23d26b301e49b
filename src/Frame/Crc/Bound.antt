-- ===== src/Frame/Crc/Bound.antt =====
-- The size of the checksum.
use usmp.Prelude.{ℕ, zero, suc, ◌/◌, ◌^◌, ◌<◌, bit_xor, [], ◌∷◌, Bytes, AreBytes, arith}
use usmp.Prelude.Bits.{bit_xor_lt}
use usmp.Frame.Crc.{crc_bit, crc_bits, crc_byte, crc_from, crc16}

pub crc_bit-lt : (crc : ℕ) → crc < 2 ^ 16 → crc_bit crc < 2 ^ 16
unfolding crc_bit
crc_bit-lt crc h = ground (arith, bit_xor_lt 16 (crc / 2) 0xa001 (omega arith) (omega arith))

pub crc_bits-lt : (n crc : ℕ) → crc < 2 ^ 16 → crc_bits n crc < 2 ^ 16
unfolding crc_bits
crc_bits-lt zero crc h = h
crc_bits-lt (suc n) crc h = crc_bits-lt n (crc_bit crc) (crc_bit-lt crc h)

pub crc_byte-lt : (crc byte : ℕ) → crc < 2 ^ 16 → byte < 256 → crc_byte crc byte < 2 ^ 16
unfolding crc_byte
crc_byte-lt crc byte h k = crc_bits-lt 8 (bit_xor crc byte) (bit_xor_lt 16 crc byte h (omega arith))

pub crc_from-lt :
    (crc : ℕ) (bytes : Bytes) → crc < 2 ^ 16 → AreBytes bytes → crc_from crc bytes < 2 ^ 16
unfolding crc_from
crc_from-lt crc [] h k = h
crc_from-lt crc (byte ∷ rest) h k =
    crc_from-lt (crc_byte crc byte) rest (crc_byte-lt crc byte h k.0) k.1

pub crc16-lt : (bytes : Bytes) → AreBytes bytes → crc16 bytes < 2 ^ 16
unfolding crc16
crc16-lt bytes h = crc_from-lt 0xffff bytes (omega arith) h
