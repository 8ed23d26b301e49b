-- ===== src/Struct/Laws.antt =====
-- Packing in range and out of range, and the number that little-endian digits stand for.
use usmp.Prelude.{ℕ, ◌+◌, ◌*◌, ◌/◌, ◌%◌, ◌^◌, ◌≤◌, ◌<◌, ◌≡◌, [], ◌∷◌, arith, ltb_of_lt, ltb_of_le}
use usmp.Errors.{struct_error, ok, err}
use usmp.Struct.{pack_u8, pack_u16, pack_u32}

pub pack_u8_lt : (n : ℕ) → n < 256 → pack_u8 n ≡ ok (n ∷ [])
unfolding pack_u8
pack_u8_lt n h = rw (ltb_of_lt n 256 h)

pub pack_u16_lt : (n : ℕ) → n < 65536 → pack_u16 n ≡ ok (n % 256 ∷ n / 256 ∷ [])
unfolding pack_u16
pack_u16_lt n h = rw (ltb_of_lt n 65536 h)

pub pack_u32_lt :
    (n : ℕ)
    → n < 2 ^ 32
    → pack_u32 n ≡ ok (n % 256 ∷ n / 256 % 256 ∷ n / 65536 % 256 ∷ n / 16777216 ∷ [])
unfolding pack_u32
pack_u32_lt n h = rw (ltb_of_lt n (2 ^ 32) h)

pub pack_u32_ge : (n : ℕ) → 2 ^ 32 ≤ n → pack_u32 n ≡ err struct_error
unfolding pack_u32
pack_u32_ge n h = rw (ltb_of_le n (2 ^ 32) h)

pub u16_digits : (n : ℕ) → n % 256 + 256 * (n / 256) ≡ n
u16_digits n = omega arith

pub u32_digits :
    (n : ℕ)
    → n % 256 + 256 * (n / 256 % 256) + 65536 * (n / 65536 % 256) + 16777216 * (n / 16777216) ≡ n
u32_digits n = omega arith
