-- ===== src/Crypto.antt =====
-- sdk/python/src/usmp/_crypto.py, over the primitives of the `cryptography` package.
pub mod Backend
pub mod Seal
pub mod Aad
pub mod Agreement
use usmp.Prelude.{
  ℕ, ◌+◌, ◌*◌, Bool, true, false, not, [], ◌∷◌, ◌++◌, Bytes, length, take, drop, replicate,
  bytes_eq, ltb, if◌then◌else◌,
}
use usmp.Errors.{crypto_error, Result, ok, err, ◌>>=◌, ◌>>◌, raise_if}
use usmp.Types.{CipherSuite, usmp_session_key_len, usmp_tag_len}
use usmp.Struct.{pack_u8, pack_u16, pack_u32}
use Backend.{Primitives}

-- `b"usmp-v2"`.
abbrev pub session_label : Bytes
session_label = b'u' ∷ b's' ∷ b'm' ∷ b'p' ∷ b'-' ∷ b'v' ∷ b'2' ∷ []

-- `b"usmp-rekey"`.
abbrev pub rekey_label : Bytes
rekey_label = b'u' ∷ b's' ∷ b'm' ∷ b'p' ∷ b'-' ∷ b'r' ∷ b'e' ∷ b'k' ∷ b'e' ∷ b'y' ∷ []

unfoldable pub build_aad : ℕ → ℕ → ℕ → ℕ → ℕ → Result Bytes
build_aad magic version type seq size = do
  m ← pack_u16 magic
  v ← pack_u8 version
  t ← pack_u8 type
  s ← pack_u32 seq
  l ← pack_u16 size
  ok (m ++ (v ++ (t ++ (s ++ l))))

-- `except InvalidTag` and `except Exception`: both raise `CryptoError`.
abbrev pub or_crypto_error : Result Bytes → Result Bytes
or_crypto_error (ok plaintext) = ok plaintext
or_crypto_error (err e) = err crypto_error

module _ (P : Primitives) where
  -- The private key is drawn by the caller; the pair is it and its public key.
  unfoldable pub derive_session_keys :
      Bytes → Bytes → Bytes → Bytes → Bytes → Result (Bytes × Bytes)
  derive_session_keys priv_key peer_pub nonce pub_c pub_s = do
    P.from_public_bytes peer_pub
    shared_secret ← P.exchange priv_key peer_pub
    raise_if (bytes_eq shared_secret (replicate (length shared_secret) 0)) crypto_error
    let info = session_label ++ (pub_c ++ pub_s)
    let key_material = P.hkdf (usmp_session_key_len * 2) nonce info shared_secret
    ok (take usmp_session_key_len key_material, drop usmp_session_key_len key_material)

  unfoldable pub derive_rekey_keys : Bool → Bytes → Bytes → Bytes → Bytes → Bytes × Bytes
  derive_rekey_keys is_initiator tx_key rx_key session_id salt =
      let secret = if is_initiator then tx_key ++ rx_key else rx_key ++ tx_key in
      let info = rekey_label ++ session_id in
      let key_material = P.hkdf (usmp_session_key_len * 2) salt info secret in
      if is_initiator
      then (take usmp_session_key_len key_material, drop usmp_session_key_len key_material)
      else (drop usmp_session_key_len key_material, take usmp_session_key_len key_material)

  unfoldable pub encrypt : Bytes → Bytes → ℕ → ℕ → ℕ → ℕ → Bytes → CipherSuite → Result Bytes
  encrypt key nonce seq type version magic plaintext suite = do
    aad ← build_aad magic version type seq (12 + length plaintext + usmp_tag_len)
    P.new_cipher suite key
    ciphertext_and_tag ← P.aead_encrypt suite key nonce plaintext aad
    ok (nonce ++ ciphertext_and_tag)

  unfoldable pub decrypt : Bytes → Bytes → ℕ → ℕ → ℕ → ℕ → ℕ → Bytes → CipherSuite → Result Bytes
  decrypt key nonce seq type version magic size nonce_ct_tag suite = do
    raise_if (ltb (length nonce_ct_tag) (12 + usmp_tag_len)) crypto_error
    raise_if (not (bytes_eq (take 12 nonce_ct_tag) nonce)) crypto_error
    aad ← build_aad magic version type seq size
    P.new_cipher suite key
    or_crypto_error (P.aead_decrypt suite key nonce (drop 12 nonce_ct_tag) aad)
