-- ===== src/Struct.antt =====
-- The little-endian formats of Python's `struct` that the SDK packs and unpacks: `B`, `H` and `I`.
pub mod Laws
use usmp.Prelude.{ℕ, ◌+◌, ◌*◌, ◌/◌, ◌%◌, ◌^◌, [], ◌∷◌, Bytes, ltb, get_or, if◌then◌else◌}
use usmp.Errors.{struct_error, Result, ok, err}

-- `struct.pack("<B", n)`; a number out of range raises `struct.error`, here and below.
unfoldable pub pack_u8 : ℕ → Result Bytes
pack_u8 n = if ltb n 256 then ok (n ∷ []) else err struct_error

-- `struct.pack("<H", n)`.
unfoldable pub pack_u16 : ℕ → Result Bytes
pack_u16 n = if ltb n 65536 then ok (n % 256 ∷ n / 256 ∷ []) else err struct_error

-- `struct.pack("<I", n)`.
unfoldable pub pack_u32 : ℕ → Result Bytes
pack_u32 n =
    if ltb n (2 ^ 32)
    then ok (n % 256 ∷ n / 256 % 256 ∷ n / 65536 % 256 ∷ n / 16777216 ∷ [])
    else err struct_error

-- `struct.unpack_from("<H", data, i)[0]`, within the bounds that every caller has tested.
abbrev pub unpack_u16 : Bytes → ℕ → ℕ
unpack_u16 data_bytes i = get_or data_bytes i 0 + 256 * get_or data_bytes (i + 1) 0

-- `struct.unpack_from("<I", data, i)[0]`.
abbrev pub unpack_u32 : Bytes → ℕ → ℕ
unpack_u32 data_bytes i =
    get_or data_bytes i 0
    + 256 * get_or data_bytes (i + 1) 0
    + 65536 * get_or data_bytes (i + 2) 0
    + 16777216 * get_or data_bytes (i + 3) 0
