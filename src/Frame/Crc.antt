-- ===== src/Frame/Crc.antt =====
-- `crc16` and `compute_frame_crc` of sdk/python/src/usmp/_frame.py.
pub mod Bound
pub mod Detect
use usmp.Prelude.{ℕ, zero, suc, ◌/◌, bit_and, bit_xor, [], ◌∷◌, ◌++◌, Bytes, ◌==◌, if◌then◌else◌}
use usmp.Errors.{Result, ok, ◌>>=◌}
use usmp.Struct.{pack_u8, pack_u16, pack_u32}

-- The body of the inner loop.
unfoldable pub crc_bit : ℕ → ℕ
crc_bit crc = if bit_and crc 1 == 1 then bit_xor (crc / 2) 0xa001 else crc / 2

-- `for _ in range(n)`.
unfoldable pub crc_bits : ℕ → ℕ → ℕ
crc_bits zero crc = crc
crc_bits (suc n) crc = crc_bits n (crc_bit crc)

-- The body of the outer loop.
unfoldable pub crc_byte : ℕ → ℕ → ℕ
crc_byte crc byte = crc_bits 8 (bit_xor crc byte)

-- `for byte in data`.
unfoldable pub crc_from : ℕ → Bytes → ℕ
crc_from crc [] = crc
crc_from crc (byte ∷ rest) = crc_from (crc_byte crc byte) rest

unfoldable pub crc16 : Bytes → ℕ
crc16 data_bytes = crc_from 0xffff data_bytes

-- `struct.pack("<HBBI", magic, version, type_, seq) + struct.pack("<H", length)`, the header up to
-- the checksum.
unfoldable pub header_fields : ℕ → ℕ → ℕ → ℕ → ℕ → Result Bytes
header_fields magic version type seq length = do
  m ← pack_u16 magic
  v ← pack_u8 version
  t ← pack_u8 type
  s ← pack_u32 seq
  l ← pack_u16 length
  ok (m ++ (v ++ (t ++ (s ++ l))))

unfoldable pub compute_frame_crc : ℕ → ℕ → ℕ → ℕ → ℕ → Bytes → Result ℕ
compute_frame_crc magic version type seq length payload = do
  header ← header_fields magic version type seq length
  ok (crc16 (header ++ payload))
