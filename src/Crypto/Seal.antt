-- ===== src/Crypto/Seal.antt =====
-- `encrypt`, and `decrypt` with the same header.
use usmp.Prelude.{
  ℕ, ◌+◌, ◌/◌, ◌%◌, ◌^◌, ◌<◌, ◌≡◌, [], ◌∷◌, ◌++◌, Bytes, AreBytes, AreBytes-append, length, arith,
  ltb_of_le, bytes_eq_refl, length-append, take-append, drop-append,
}
use usmp.Errors.{ok}
use usmp.Types.{CipherSuite}
use usmp.Struct.Laws.{pack_u8_lt, pack_u16_lt, pack_u32_lt}
use usmp.Crypto.{build_aad, encrypt, decrypt}
use usmp.Crypto.Backend.{Primitives, PrimitiveLaws, Sealed}

abbrev pub aad_bytes : ℕ → ℕ → ℕ → ℕ → ℕ → Bytes
aad_bytes magic version type seq size =
    magic % 256
    ∷ magic / 256
    ∷ version
    ∷ type
    ∷ seq % 256
    ∷ seq / 256 % 256
    ∷ seq / 65536 % 256
    ∷ seq / 16777216
    ∷ size % 256
    ∷ size / 256
    ∷ []

pub build_aad-eq :
    (magic version type seq size : ℕ)
    → magic < 65536
    → version < 256
    → type < 256
    → seq < 2 ^ 32
    → size < 65536
    → build_aad magic version type seq size ≡ ok (aad_bytes magic version type seq size)
unfolding build_aad
build_aad-eq m v t s l hm hv ht hs hl =
    rw (pack_u16_lt m hm, pack_u8_lt v hv, pack_u8_lt t ht, pack_u32_lt s hs, pack_u16_lt l hl)

-- An encrypted payload: the bytes, their number, and that they decrypt.
pub record Encrypted (P : Primitives) (key nonce : Bytes) (seq type version magic : ℕ)
    (plaintext : Bytes) (suite : CipherSuite) : Type 0 where
  pub payload : Bytes
  pub encrypted : encrypt P key nonce seq type version magic plaintext suite ≡ ok payload
  pub size : length payload ≡ 12 + length plaintext + 16
  pub decrypted :
      decrypt P key nonce seq type version magic (length payload) payload suite ≡ ok plaintext
  pub bytes : AreBytes nonce → AreBytes plaintext → AreBytes payload

module _ (P : Primitives) (laws : PrimitiveLaws P) where
  pub encrypt-Encrypted :
      (key nonce : Bytes) (seq type version magic : ℕ) (plaintext : Bytes) (suite : CipherSuite)
      → length key ≡ 32
      → length nonce ≡ 12
      → magic < 65536
      → version < 256
      → type < 256
      → seq < 2 ^ 32
      → length plaintext < 65508
      → Encrypted P key nonce seq type version magic plaintext suite
  unfolding encrypt decrypt
  encrypt-Encrypted key nonce seq type version magic plaintext suite hk hn hm hv ht hs hp =
      let n : ℕ = 12 + length plaintext + 16 in
      let aad : Bytes = aad_bytes magic version type seq n in
      let built : build_aad magic version type seq n ≡ ok aad =
        build_aad-eq magic version type seq n hm hv ht hs (omega arith) in
      let s : Sealed P suite key nonce plaintext aad =
        laws.seal suite key nonce plaintext aad hk hn in
      let size : length (nonce ++ s.ct_tag) ≡ n =
        omega (arith, length-append {0} nonce s.ct_tag, s.size) in
      record {
        payload = nonce ++ s.ct_tag;
        encrypted = rw (built, laws.cipher_of_32 suite key hk, s.encrypted);
        size = size;
        decrypted = rw (
          size,
          ltb_of_le n 28 (omega arith),
          take-append nonce s.ct_tag 12 hn,
          bytes_eq_refl nonce,
          built,
          laws.cipher_of_32 suite key hk,
          drop-append nonce s.ct_tag 12 hn,
          s.decrypted,
        );
        bytes = λ bn bp. AreBytes-append nonce s.ct_tag bn (s.bytes bp);
      }

  -- With a key of 32 bytes, a nonce of 12, a header whose fields fit and a plaintext below 65508
  -- bytes, `encrypt` succeeds with 28 bytes more than the plaintext, and `decrypt` under the same
  -- header gives the plaintext.
  pub decrypt-encrypt :
      (key nonce : Bytes) (seq type version magic : ℕ) (plaintext : Bytes) (suite : CipherSuite)
      → length key ≡ 32
      → length nonce ≡ 12
      → magic < 65536
      → version < 256
      → type < 256
      → seq < 2 ^ 32
      → length plaintext < 65508
      → (payload : Bytes) × (encrypt P key nonce seq type version magic plaintext suite
          ≡ ok payload)
        × (length payload ≡ length plaintext + 28)
        × (decrypt P key nonce seq type version magic (length payload) payload suite ≡ ok plaintext)
  decrypt-encrypt key nonce seq type version magic plaintext suite hk hn hm hv ht hs hp =
      let e : Encrypted P key nonce seq type version magic plaintext suite =
        encrypt-Encrypted key nonce seq type version magic plaintext suite hk hn hm hv ht hs hp in
      (e.payload, e.encrypted, omega (arith, e.size), e.decrypted)
