-- ===== src/Client/Message.antt =====
-- A client that connects and sends a message, and the server that receives it: `connect` and `send` of
-- _client.py with `server_handshake` and `recv`.
use usmp.Prelude.{
  ℕ, ◌*◌, ◌≤◌, ◌≡◌, refl, ap, true, false, none, some, List, [], ◌∷◌, ◌++◌, Bytes, length, arith,
}
use usmp.Prelude.Dict.{bytes_key, delete}
use usmp.Errors.{Result, ok}
use usmp.Types.{SessionInfo, Frame, usmp_max_data_len, usmp_max_frames}
use usmp.Transport.{Transport}
use usmp.Crypto.{derive_session_keys}
use usmp.Crypto.Agreement.{derive_session_keys-length}
use usmp.Crypto.Backend.{Primitives, PrimitiveLaws}
use usmp.Session.{Session, new_session, send as session_send}
use usmp.Session.Receive.{Arrival, recv as session_recv}
use usmp.Session.Delivery.{Message, recv-send}
use usmp.Session.Delivery.Chunks.{arrivals}
use usmp.Session.Delivery.Frame.{Sent, outbox, Matched}
use usmp.Handshake.{psk_bytes, server_handshake, client_handshake}
use usmp.Handshake.Limiter.{Table, is_locked}
use usmp.Handshake.Agreement.Steps.{
  frame_of, hello_sent, challenge_sent, ack_sent, ok_sent, session_data, server_succeeds,
  client_succeeds,
}
use usmp.Client.{Client, connect, send, ensure_connected}

module _ (P : Primitives) {T : Type 0} (tr : Transport T) where
  -- `self._session = USMPSession(self._transport, info)`.
  pub connect-ok :
      (now : ℕ) (priv_c : Bytes) (read1 read2 read3 : Result Frame) (c : Client T) (t : T)
      (info : SessionInfo) (t' : T)
      → client_handshake P tr c.psk c.device_id priv_c read1 read2 read3 t ≡ (ok info, t')
      → connect P tr now priv_c none read1 read2 read3 (ok t) c
        ≡ (ok tt, record c { session = some (new_session info now t'); has_transport = true })
  unfolding connect
  connect-ok now priv_c read1 read2 read3 c t info t' h = rw h refl

  -- `send` over the client's session.
  pub send-ok :
      (bytes : Bytes) (c : Client T) (s s' : Session T)
      → c.session ≡ some s
      → session_send P tr bytes s ≡ some (ok tt, s')
      → send P tr bytes c ≡ (some (ok tt), record c { session = some s' })
  unfolding send ensure_connected
  send-ok bytes c s s' h sends = rw (h, sends) refl

-- The client's session holds the frames that the client wrote.
abbrev pub Wrote : Client (List Sent) → List Sent → Type 0
Wrote c frames = (s : Session (List Sent)) × (c.session ≡ some s) × (s.transport ≡ frames)

module _ (P : Primitives) (laws : PrimitiveLaws P) (nonce session_id priv_c priv_s : Bytes)
    (c : Client (List Sent)) (long : 16 ≤ length c.psk) (id_size : length c.device_id ≡ 6)
    (nonce_size : length nonce ≡ 32) (session_size : length session_id ≡ 16) (keys : Bytes × Bytes)
    (derived : derive_session_keys P priv_c
        (P.public_key priv_s)
        nonce
        (P.public_key priv_c)
        (P.public_key priv_s)
      ≡ ok keys)
    (limiter_key : Bytes) (now failed_at : ℕ) (table : Table)
    (unlocked : is_locked limiter_key now table ≡ false) (bytes : Bytes)
    (fits : length bytes ≤ usmp_max_data_len * usmp_max_frames) where
  -- What the two sides write before the session.
  abbrev pub hello_out : Sent
  hello_out = hello_sent P laws c.psk c.device_id nonce session_id priv_c priv_s

  abbrev pub challenge_out : Sent
  challenge_out = challenge_sent P laws c.psk c.device_id nonce session_id priv_c priv_s

  abbrev pub ack_out : Sent
  ack_out = ack_sent P laws c.psk c.device_id nonce session_id priv_c priv_s

  abbrev pub ok_out : Sent
  ok_out = ok_sent P laws c.psk c.device_id nonce session_id priv_c priv_s

  abbrev side : Bytes → Bytes → SessionInfo
  side =
      session_data P laws c.psk c.device_id nonce session_id priv_c priv_s long id_size nonce_size
        session_size keys derived

  sizes : (length keys.0 ≡ 32) × (length keys.1 ≡ 32)
  sizes =
      derive_session_keys-length P laws priv_c (P.public_key priv_s) nonce (P.public_key priv_c)
        (P.public_key priv_s) keys derived

  matched : Matched true (side keys.0 keys.1) (side keys.1 keys.0)
  matched = record {
    key = refl;
    session = refl;
    suite = refl;
    seq = refl;
    key_size = sizes.0;
    id_size = session_size;
  }

  -- The client once connected.
  abbrev connected : Client (List Sent)
  connected = record c {
    session = some (new_session (side keys.0 keys.1) now (hello_out ∷ ack_out ∷ []));
    has_transport = true;
  }

  module _ (spare : Result Frame) (start : ℕ) where
    abbrev pub client_connects : Result (Unit {0}) × Client (List Sent)
    client_connects =
        connect P outbox now priv_c none (ok (frame_of challenge_out)) (ok (frame_of ok_out)) spare
          (ok []) c

    connects : client_connects ≡ (ok tt, connected)
    connects =
        connect-ok P outbox now priv_c (ok (frame_of challenge_out)) (ok (frame_of ok_out)) spare c
          [] (side keys.0 keys.1) (hello_out ∷ ack_out ∷ [])
          (client_succeeds P laws c.psk c.device_id nonce session_id priv_c priv_s long id_size
            nonce_size session_size keys derived spare)

    message :
        Message P laws outbox true refl now bytes start
          (new_session (side keys.0 keys.1) now (hello_out ∷ ack_out ∷ []))
          (new_session (side keys.1 keys.0) now (challenge_out ∷ ok_out ∷ []))
    message =
        recv-send P laws outbox true refl now bytes start
          (new_session (side keys.0 keys.1) now (hello_out ∷ ack_out ∷ []))
          (new_session (side keys.1 keys.0) now (challenge_out ∷ ok_out ∷ [])) matched fits
          (omega arith)

    -- When a client and a server share a key of at least 16 bytes, identifiers and random bytes
    -- have the right sizes, the address is not locked out and the key exchange gives keys, then the
    -- client that reads the server's frames connects, the server that reads the client's frames
    -- succeeds, and any message of at most 1808 bytes that the connected client sends is what the
    -- server's session receives, whatever follows it.
    pub message_arrives :
        (client_connects.0 ≡ ok tt)
        × (server : SessionInfo) × (server_handshake P outbox limiter_key now failed_at
              (psk_bytes c.psk)
              priv_s
              nonce
              session_id
              (ok (frame_of hello_out))
              (ok (frame_of ack_out))
              (table, [])
            ≡ (ok server, (delete bytes_key limiter_key table, challenge_out ∷ ok_out ∷ [])))
        × (frames : List Sent) × (sender : Client (List Sent)) × (receiver : Session (List Sent))
        × (send P outbox bytes client_connects.1 ≡ (some (ok tt), sender))
        × Wrote sender (hello_out ∷ ack_out ∷ frames)
        × ((rest : List Arrival)
            → session_recv P outbox none start
                (arrivals now frames ++ rest)
                (new_session server now (challenge_out ∷ ok_out ∷ []))
              ≡ (some (ok bytes), receiver))
    message_arrives = (
      ap (λ x. x.0) connects,
      side keys.1 keys.0,
      server_succeeds P laws c.psk c.device_id nonce session_id priv_c priv_s long id_size
          nonce_size session_size keys derived limiter_key now failed_at table unlocked,
      message.frames,
      record connected { session = some message.sender },
      message.receiver,
      rw (ap (λ x. x.1) connects) (
          send-ok P outbox bytes connected
            (new_session (side keys.0 keys.1) now (hello_out ∷ ack_out ∷ [])) message.sender refl
            message.sends),
      (message.sender, refl, message.wrote),
      λ rest. message.receives none rest,
    )
