-- ===== src/Handshake/Agreement.antt =====
-- The handshake of a client and a server that share a key and read each other's frames.
pub mod Steps
use usmp.Prelude.{
  true, ℕ, ◌≤◌, ◌≡◌, ◌∙◌, sym, refl, false, [], ◌∷◌, ◌++◌, Bytes, bytes_eq_refl, length, take, drop,
  take-append, drop-append, take_all, length-append, ltb_of_le, arith,
}
use usmp.Prelude.Dict.{bytes_key, get, delete}
use usmp.Errors.{Result, ok}
use usmp.Types.{
  hello, challenge, hello_ack, session_ok, Frame, SessionInfo, session_info, aes256_gcm,
}
use usmp.Frame.RoundTrip.{sent_frame}
use usmp.Crypto.{derive_session_keys}
use usmp.Crypto.Agreement.{derive_session_keys-agree, derive_session_keys-length}
use usmp.Crypto.Backend.{Primitives, PrimitiveLaws}
use usmp.Session.Delivery.Frame.{Sent, outbox, Matched}
use usmp.Handshake.{
  psk_bytes, resolve_psk, open_hello, check_ack, client_hmac, server_hmac, serve, and_then,
  count_failure, server_handshake, open_challenge, open_session_ok, after_retry, finish_client,
  client_handshake, compute_hmac,
}
use usmp.Handshake.Limiter.{Table, is_locked}
use Steps.{
  frame_of, hello_sent, challenge_sent, ack_sent, ok_sent, server_succeeds, client_succeeds,
}

-- With a shared key of at least 16 bytes, identifiers and random bytes of the right sizes, an
-- address that is not locked out and a key exchange whose secret is not all zeros, the server that
-- reads the client's frames and the client that reads the server's both succeed; they write just
-- those frames, the address's failures are forgotten, and the two sessions match in both
-- directions.
pub handshake_agrees :
    (P : Primitives) (laws : PrimitiveLaws P)
    (psk device_id nonce session_id priv_c priv_s limiter_key : Bytes) (now failed_at : ℕ)
    (table : Table) (spare : Result Frame) (keys : Bytes × Bytes)
    → 16 ≤ length psk
    → length device_id ≡ 6
    → length nonce ≡ 32
    → length session_id ≡ 16
    → derive_session_keys P priv_c
        (P.public_key priv_s)
        nonce
        (P.public_key priv_c)
        (P.public_key priv_s)
      ≡ ok keys
    → is_locked limiter_key now table ≡ false
    → let hello_out = hello_sent P laws psk device_id nonce session_id priv_c priv_s in
      let challenge_out = challenge_sent P laws psk device_id nonce session_id priv_c priv_s in
      let ack_out = ack_sent P laws psk device_id nonce session_id priv_c priv_s in
      let ok_out = ok_sent P laws psk device_id nonce session_id priv_c priv_s in
      (info_s : SessionInfo) × (info_c : SessionInfo) × (server_handshake P outbox limiter_key now
          failed_at
          (psk_bytes psk)
          priv_s
          nonce
          session_id
          (ok (frame_of hello_out))
          (ok (frame_of ack_out))
          (table, [])
        ≡ (ok info_s, (delete bytes_key limiter_key table, challenge_out ∷ ok_out ∷ [])))
      × (client_handshake P outbox psk device_id priv_c
            (ok (frame_of challenge_out))
            (ok (frame_of ok_out))
            spare
            []
          ≡ (ok info_c, hello_out ∷ ack_out ∷ []))
      × Matched true info_c info_s
      × Matched true info_s info_c
handshake_agrees P laws psk device_id nonce session_id priv_c priv_s limiter_key now failed_at table
      spare keys long id_size nonce_size session_size derived unlocked =
    let sizes : (length keys.0 ≡ 32) × (length keys.1 ≡ 32) =
      derive_session_keys-length P laws priv_c (P.public_key priv_s) nonce (P.public_key priv_c)
        (P.public_key priv_s) keys derived in
    (
      _,
      _,
      server_succeeds P laws psk device_id nonce session_id priv_c priv_s long id_size nonce_size
          session_size keys derived limiter_key now failed_at table unlocked,
      client_succeeds P laws psk device_id nonce session_id priv_c priv_s long id_size nonce_size
          session_size keys derived spare,
      record {
        key = refl;
        session = refl;
        suite = refl;
        seq = refl;
        key_size = sizes.0;
        id_size = session_size;
      },
      record {
        key = refl;
        session = refl;
        suite = refl;
        seq = refl;
        key_size = sizes.1;
        id_size = session_size;
      },
    )
