-- ===== src/Crypto/Agreement.antt =====
-- The keys that both ends derive.
use usmp.Prelude.{
  Bool, bytes_eq, replicate, ◌≡◌, refl, true, false, ◌++◌, Bytes, length, take, drop, arith,
  length-take, length-drop,
}
use usmp.Errors.{crypto_error, raise_if, err, Result, ok, ◌>>◌, ◌>>=◌}
use usmp.Crypto.{session_label, derive_session_keys, derive_rekey_keys, rekey_label}
use usmp.Crypto.Backend.{Primitives, PrimitiveLaws}

pub length-halves :
    (km : Bytes) → length km ≡ 64 → (length (take 32 km) ≡ 32) × (length (drop 32 km) ≡ 32)
length-halves km n = (omega (arith, length-take {0} 32 km), omega (arith, length-drop {0} 32 km))

-- Keys that come out of the chain of `derive_session_keys` are the halves of the key material.
length-keys :
    (valid : Result (Unit {0})) (shared : Result Bytes) (weak : Bytes → Bool)
    (material : Bytes → Bytes) (keys : Bytes × Bytes)
    → ((s : Bytes) → length (material s) ≡ 64)
    → (valid
        >> (shared >>= λ s.
            raise_if (weak s) crypto_error >> ok (take 32 (material s), drop 32 (material s))))
      ≡ ok keys
    → (length keys.0 ≡ 32) × (length keys.1 ≡ 32)
length-keys (err e) shared weak material keys n h = cc
length-keys (ok u) (err e) weak material keys n h = cc
length-keys (ok u) (ok s) weak material keys n h = ground (arith, length-halves (material s), n s)

module _ (P : Primitives) where
  -- The two ends of a rekey, whose old keys are crossed, derive new keys that are crossed.
  pub derive_rekey_keys-crossed :
      (a b session_id salt : Bytes)
      → let (i_tx, i_rx) = derive_rekey_keys P true a b session_id salt in
        let (r_tx, r_rx) = derive_rekey_keys P false b a session_id salt in
        (i_tx ≡ r_rx) × (i_rx ≡ r_tx)
  unfolding derive_rekey_keys
  derive_rekey_keys-crossed a b session_id salt = (refl, refl)

  module _ (laws : PrimitiveLaws P) where
    pub derive_rekey_keys-length :
        (a b session_id salt : Bytes)
        → let (i_tx, i_rx) = derive_rekey_keys P true a b session_id salt in
          (length i_tx ≡ 32) × (length i_rx ≡ 32)
    unfolding derive_rekey_keys
    derive_rekey_keys-length a b session_id salt =
        let km : Bytes = P.hkdf 64 salt (rekey_label ++ session_id) (a ++ b) in
        length-halves km
          (laws.length-hkdf 64 salt (rekey_label ++ session_id) (a ++ b) (omega arith))

    -- Client and server, each from its own private key and the other's public key, compute one pair
    -- of session keys, or fail alike.
    pub derive_session_keys-agree :
        (priv_c priv_s nonce : Bytes)
        → derive_session_keys P priv_c
            (P.public_key priv_s)
            nonce
            (P.public_key priv_c)
            (P.public_key priv_s)
          ≡ derive_session_keys P priv_s
              (P.public_key priv_c)
              nonce
              (P.public_key priv_c)
              (P.public_key priv_s)
    unfolding derive_session_keys
    derive_session_keys-agree priv_c priv_s nonce = rw (
      (laws.public_key_lem priv_s).0,
      (laws.public_key_lem priv_c).0,
      laws.exchange_comm priv_c priv_s,
    )

    -- Session keys that `derive_session_keys` returns have 32 bytes each.
    pub derive_session_keys-length :
        (priv peer nonce pub_c pub_s : Bytes) (keys : Bytes × Bytes)
        → derive_session_keys P priv peer nonce pub_c pub_s ≡ ok keys
        → (length keys.0 ≡ 32) × (length keys.1 ≡ 32)
    unfolding derive_session_keys
    derive_session_keys-length priv peer nonce pub_c pub_s keys =
        length-keys (P.from_public_bytes peer) (P.exchange priv peer)
          (λ s. bytes_eq s (replicate (length s) 0))
          (P.hkdf 64 nonce (session_label ++ (pub_c ++ pub_s))) keys
          (λ s. laws.length-hkdf 64 nonce (session_label ++ (pub_c ++ pub_s)) s (omega arith))
