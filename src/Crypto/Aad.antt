-- ===== src/Crypto/Aad.antt =====
-- The additional data, and the header that it stands for.
use usmp.Prelude.{ℕ, ◌≡◌, sym, ◌∙◌, Bytes, arith}
use usmp.Errors.{Result, ok}
use usmp.Struct.{pack_u8, pack_u16, pack_u32}
use usmp.Crypto.{build_aad}
use usmp.Crypto.Seal.{aad_bytes}

-- The header fields that the additional data holds.
pub record Header : Type 0 where
  pub magic : ℕ
  pub version : ℕ
  pub type : ℕ
  pub seq : ℕ
  pub size : ℕ

abbrev pub aad_of : Header → Result Bytes
aad_of h = build_aad h.magic h.version h.type h.seq h.size

build_aad-inv :
    (h : Header) (aad : Bytes)
    → aad_of h ≡ ok aad
    → aad ≡ aad_bytes h.magic h.version h.type h.seq h.size
unfolding build_aad pack_u8 pack_u16 pack_u32
build_aad-inv h aad e = ground arith

-- Two headers with the same additional data are equal.
pub build_aad_injective :
    (a b : Header) (aad : Bytes) → aad_of a ≡ ok aad → aad_of b ≡ ok aad → a ≡ b
build_aad_injective a b aad ea eb =
    let e : aad_bytes a.magic a.version a.type a.seq a.size
        ≡ aad_bytes b.magic b.version b.type b.seq b.size =
      sym (build_aad-inv a aad ea) ∙ build_aad-inv b aad eb in
    ground arith
