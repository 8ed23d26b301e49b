-- ===== src/Handshake/Agreement/Steps.antt =====
-- Each step of an honest handshake, on the frame that the other side has sent.
use usmp.Prelude.{
  ℕ, ◌≤◌, ◌≡◌, ◌∙◌, sym, refl, false, [], ◌∷◌, ◌++◌, Bytes, bytes_eq_refl, length, take, drop,
  take-append, drop-append, take_all, length-append, ltb_of_le, arith,
}
use usmp.Prelude.Dict.{bytes_key, delete}
use usmp.Errors.{Result, ok}
use usmp.Types.{
  hello, challenge, hello_ack, session_ok, Frame, SessionInfo, session_info, aes256_gcm,
}
use usmp.Frame.RoundTrip.{sent_frame}
use usmp.Crypto.{derive_session_keys}
use usmp.Crypto.Agreement.{derive_session_keys-agree, derive_session_keys-length}
use usmp.Crypto.Backend.{Primitives, PrimitiveLaws}
use usmp.Transport.{Transport}
use usmp.Session.Delivery.Frame.{Sent, outbox}
use usmp.Handshake.{
  psk_bytes, resolve_psk, open_hello, check_ack, client_hmac, server_hmac, serve, and_then,
  count_failure, server_handshake, open_challenge, open_session_ok, after_retry, finish_client,
  client_handshake, compute_hmac,
}
use usmp.Handshake.Limiter.{Table, is_locked}

abbrev pub frame_of : Sent → Frame
frame_of x = sent_frame x.type x.seq x.payload

module _ (P : Primitives) (laws : PrimitiveLaws P)
    (psk device_id nonce session_id priv_c priv_s : Bytes) where
  abbrev pub_c : Bytes
  pub_c = P.public_key priv_c

  abbrev pub_s : Bytes
  pub_s = P.public_key priv_s

  -- The frames of the two sides.
  abbrev pub hello_sent : Sent
  hello_sent = record { type = hello; payload = device_id ++ pub_c; seq = 0 }

  abbrev pub challenge_sent : Sent
  challenge_sent = record { type = challenge; payload = nonce ++ pub_s; seq = 0 }

  abbrev pub ack_sent : Sent
  ack_sent = record {
    type = hello_ack;
    payload = client_hmac P psk nonce device_id pub_c pub_s;
    seq = 2;
  }

  abbrev pub ok_sent : Sent
  ok_sent = record {
    type = session_ok;
    payload = session_id ++ server_hmac P psk nonce session_id pub_c pub_s;
    seq = 0;
  }

  module _ (long : 16 ≤ length psk) (id_size : length device_id ≡ 6)
      (nonce_size : length nonce ≡ 32) (session_size : length session_id ≡ 16) where
    second_half :
        (first bytes : Bytes) (n : ℕ)
        → length first ≡ n
        → length bytes ≡ 32
        → take 32 (drop n (first ++ bytes)) ≡ bytes
    second_half first bytes n h size =
        rw (drop-append first bytes n h) (take_all bytes 32 (omega arith))

    key_size : (priv : Bytes) → length (P.public_key priv) ≡ 32
    key_size priv = (laws.public_key_lem priv).1

    open_hello-sent :
        open_hello (psk_bytes psk) (ok (frame_of hello_sent))
        ≡ ok (record { device_id = device_id; pub_c = pub_c; psk = psk })
    unfolding open_hello resolve_psk
    open_hello-sent =
        let size : length (device_id ++ pub_c) ≡ 38 =
          omega (arith, length-append {0} device_id pub_c, key_size priv_c) in
        rw
          (
            size,
            take-append device_id pub_c 6 id_size,
            second_half device_id pub_c 6 id_size (key_size priv_c),
            ltb_of_le (length psk) 16 long,
          )
          refl

    hmac_size : (key bytes : Bytes) → length (compute_hmac P key bytes) ≡ 32
    unfolding compute_hmac
    hmac_size key bytes = laws.length-hmac key bytes

    client_hmac-size : length (client_hmac P psk nonce device_id pub_c pub_s) ≡ 32
    unfolding client_hmac
    client_hmac-size = hmac_size psk _

    server_hmac-size : length (server_hmac P psk nonce session_id pub_c pub_s) ≡ 32
    unfolding server_hmac
    server_hmac-size = hmac_size psk _

    check_ack-sent :
        check_ack P
          (record { device_id = device_id; pub_c = pub_c; psk = psk })
          nonce
          pub_s
          (ok (frame_of ack_sent))
        ≡ ok tt
    unfolding check_ack
    check_ack-sent =
        rw
          (
            client_hmac-size,
            take_all (client_hmac P psk nonce device_id pub_c pub_s) 32
                (omega (arith, client_hmac-size)),
            bytes_eq_refl (client_hmac P psk nonce device_id pub_c pub_s),
          )
          refl

    open_challenge-sent : open_challenge P outbox (frame_of challenge_sent) ≡ ok (nonce, pub_s)
    unfolding open_challenge
    open_challenge-sent =
        let size : length (nonce ++ pub_s) ≡ 64 =
          omega (arith, length-append {0} nonce pub_s, key_size priv_s) in
        rw
          (
            size,
            take-append nonce pub_s 32 nonce_size,
            second_half nonce pub_s 32 nonce_size (key_size priv_s),
          )
          refl

    open_session_ok-sent :
        open_session_ok P outbox psk nonce pub_c pub_s (ok (frame_of ok_sent)) ≡ ok session_id
    unfolding open_session_ok
    open_session_ok-sent =
        let mac : Bytes = server_hmac P psk nonce session_id pub_c pub_s in
        let size : length (session_id ++ mac) ≡ 48 =
          omega (arith, length-append {0} session_id mac, server_hmac-size) in
        rw
          (
            size,
            take-append session_id mac 16 session_size,
            second_half session_id mac 16 session_size server_hmac-size,
            bytes_eq_refl mac,
          )
          refl

    module _ (keys : Bytes × Bytes)
        (derived : derive_session_keys P priv_c pub_s nonce pub_c pub_s ≡ ok keys) where
      derived_s : derive_session_keys P priv_s pub_c nonce pub_c pub_s ≡ ok keys
      derived_s = sym (derive_session_keys-agree P laws priv_c priv_s nonce) ∙ derived

      key_sizes : (length keys.0 ≡ 32) × (length keys.1 ≡ 32)
      key_sizes = derive_session_keys-length P laws priv_c pub_s nonce pub_c pub_s keys derived

      -- The session data of a side that sends with `tx` and receives with `rx`.
      abbrev pub session_data : Bytes → Bytes → SessionInfo
      session_data tx rx = record {
        device_id = device_id;
        session_id = session_id;
        tx_key = tx;
        rx_key = rx;
        tx_seq = 0;
        rx_seq = 0;
        rx_window_bitmap = 0;
        cipher_suite = aes256_gcm;
      }

      session_info-eq :
          (tx rx : Bytes)
          → length tx ≡ 32
          → length rx ≡ 32
          → session_info device_id session_id tx rx ≡ ok (session_data tx rx)
      unfolding session_info
      session_info-eq tx rx ht hr = rw (id_size, session_size, ht, hr) refl

      -- Over any transport that writes the frames.
      module _ {T : Type 0} (tr : Transport T) where
        -- The transport writes the frame.
        abbrev pub Writes : Sent → T → T → Type 0
        Writes x t t' = tr.write_frame x.type x.payload x.seq t ≡ (ok tt, t')

        pub server_succeeds_over :
            (limiter_key : Bytes) (now failed_at : ℕ) (table : Table) (t t' t'' : T)
            → is_locked limiter_key now table ≡ false
            → Writes challenge_sent t t'
            → Writes ok_sent (tr.set_session_keys keys.1 keys.0 t') t''
            → server_handshake P tr limiter_key now failed_at
                (psk_bytes psk)
                priv_s
                nonce
                session_id
                (ok (frame_of hello_sent))
                (ok (frame_of ack_sent))
                (table, t)
              ≡ (ok (session_data keys.1 keys.0), (delete bytes_key limiter_key table, t''))
        unfolding server_handshake serve count_failure and_then
        server_succeeds_over limiter_key now failed_at table t t' t'' unlocked w1 w2 =
            rw
              (
                unlocked,
                open_hello-sent,
                w1,
                derived_s,
                check_ack-sent,
                w2,
                session_info-eq keys.1 keys.0 key_sizes.1 key_sizes.0,
              )
              refl

        pub client_succeeds_over :
            (spare : Result Frame) (t t' t'' : T)
            → Writes hello_sent t t'
            → Writes ack_sent t' t''
            → client_handshake P tr psk device_id priv_c
                (ok (frame_of challenge_sent))
                (ok (frame_of ok_sent))
                spare
                t
              ≡ (ok (session_data keys.0 keys.1), tr.set_session_keys keys.0 keys.1 t'')
        unfolding client_handshake after_retry finish_client and_then open_challenge open_session_ok
        client_succeeds_over spare t t' t'' w1 w2 =
            rw
              (
                ltb_of_le (length psk) 16 long,
                w1,
                open_challenge-sent,
                derived,
                w2,
                open_session_ok-sent,
                session_info-eq keys.0 keys.1 key_sizes.0 key_sizes.1,
              )
              refl

      pub server_succeeds :
          (limiter_key : Bytes) (now failed_at : ℕ) (table : Table)
          → is_locked limiter_key now table ≡ false
          → server_handshake P outbox limiter_key now failed_at
              (psk_bytes psk)
              priv_s
              nonce
              session_id
              (ok (frame_of hello_sent))
              (ok (frame_of ack_sent))
              (table, [])
            ≡ (
              ok (session_data keys.1 keys.0),
              (delete bytes_key limiter_key table, challenge_sent ∷ ok_sent ∷ []),
            )
      server_succeeds limiter_key now failed_at table unlocked =
          server_succeeds_over outbox limiter_key now failed_at table [] (challenge_sent ∷ [])
            (challenge_sent ∷ ok_sent ∷ []) unlocked refl refl

      pub client_succeeds :
          (spare : Result Frame)
          → client_handshake P outbox psk device_id priv_c
              (ok (frame_of challenge_sent))
              (ok (frame_of ok_sent))
              spare
              []
            ≡ (ok (session_data keys.0 keys.1), hello_sent ∷ ack_sent ∷ [])
      client_succeeds spare =
          client_succeeds_over outbox spare [] (hello_sent ∷ []) (hello_sent ∷ ack_sent ∷ []) refl
            refl
