-- ===== src/Crypto/Backend.antt =====
-- What the SDK takes from the `cryptography` package and from `hmac` and `hashlib`: a record of
-- functions, and the documented behaviour that the proofs rely on.
use usmp.Prelude.{ℕ, ◌+◌, ◌≤◌, ◌≡◌, Bytes, AreBytes, length}
use usmp.Errors.{Result, ok}
use usmp.Types.{CipherSuite}

pub record Primitives : Type 0 where
  -- `AESGCM(key)` or `ChaCha20Poly1305(key)`, which refuse a key of another size.
  pub new_cipher : CipherSuite → Bytes → Result (Unit {0})
  -- `aead.encrypt(nonce, plaintext, aad)`, with the tag appended.
  pub aead_encrypt : CipherSuite → Bytes → Bytes → Bytes → Bytes → Result Bytes
  -- `aead.decrypt(nonce, ct_tag, aad)`; a wrong tag raises.
  pub aead_decrypt : CipherSuite → Bytes → Bytes → Bytes → Bytes → Result Bytes
  -- `HKDF(SHA256(), length, salt, info).derive(secret)`.
  pub hkdf : ℕ → Bytes → Bytes → Bytes → Bytes
  -- `X25519PublicKey.from_public_bytes(peer_pub)`, as a check of the bytes.
  pub from_public_bytes : Bytes → Result (Unit {0})
  -- `priv_key.exchange(peer_key)`, and the public key of a private key.
  pub exchange : Bytes → Bytes → Result Bytes
  pub public_key : Bytes → Bytes
  -- `hmac.new(key, data, sha256).digest()`.
  pub hmac_sha256 : Bytes → Bytes → Bytes

-- What a cipher makes of a plaintext: it is 16 bytes longer, and decrypts to it again.
pub record Sealed (P : Primitives) (suite : CipherSuite) (key nonce plaintext aad : Bytes)
    : Type 0 where
  pub ct_tag : Bytes
  pub encrypted : P.aead_encrypt suite key nonce plaintext aad ≡ ok ct_tag
  pub decrypted : P.aead_decrypt suite key nonce ct_tag aad ≡ ok plaintext
  pub size : length ct_tag ≡ length plaintext + 16
  pub bytes : AreBytes plaintext → AreBytes ct_tag

pub record PrimitiveLaws (P : Primitives) : Type 0 where
  pub cipher_of_32 :
      (suite : CipherSuite) (key : Bytes) → length key ≡ 32 → P.new_cipher suite key ≡ ok tt
  pub seal :
      (suite : CipherSuite) (key nonce plaintext aad : Bytes)
      → length key ≡ 32
      → length nonce ≡ 12
      → Sealed P suite key nonce plaintext aad
  pub length-hkdf :
      (n : ℕ) (salt info secret : Bytes) → n ≤ 64 → length (P.hkdf n salt info secret) ≡ n
  pub exchange_comm : (a b : Bytes) → P.exchange a (P.public_key b) ≡ P.exchange b (P.public_key a)
  pub public_key_lem :
      (a : Bytes) → (P.from_public_bytes (P.public_key a) ≡ ok tt) × (length (P.public_key a) ≡ 32)
  pub length-hmac : (key bytes : Bytes) → length (P.hmac_sha256 key bytes) ≡ 32
  pub bytes-hmac : (key bytes : Bytes) → AreBytes (P.hmac_sha256 key bytes)
  pub bytes-public : (a : Bytes) → AreBytes (P.public_key a)
