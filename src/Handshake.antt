-- ===== src/Handshake.antt =====
-- sdk/python/src/usmp/_handshake.py: the two sides of the handshake, each over its own transport. What
-- a side reads is an argument, an exception of the read included, and so are the random bytes.
pub mod Limiter
pub mod Agreement
pub mod Authentication
use usmp.Prelude.{
  ℕ, ◌+◌, Bool, true, false, not, ◌&&◌, ◌||◌, Option, none, some, List, [], ◌∷◌, ◌++◌, Bytes,
  bytes_eq, length, take, drop, ltb, ◌==◌, if◌then◌else◌,
}
use usmp.Prelude.Dict.{bytes_key, get, delete}
use usmp.Errors.{
  Error, Result, ok, err, ◌>>=◌, ◌>>◌, raise_if, handshake_error, auth_error, value_error,
  incomplete_read_error, eof_error, is_usmp_error, is_os_error, is_value_error, is_struct_error,
}
use usmp.Types.{
  PacketType, hello, challenge, hello_ack, session_ok, hello_retry, type_int, same_type, Frame,
  SessionInfo, session_info, usmp_magic, usmp_version, usmp_device_id_len, usmp_pub_key_len,
  usmp_nonce_len, usmp_hmac_len, usmp_session_id_len,
}
use usmp.Crypto.{derive_session_keys}
use usmp.Crypto.Backend.{Primitives}
use usmp.Transport.{Transport}
use Limiter.{Table, is_locked, record_failed_handshake}

-- The `psk` argument: bytes, a dictionary, or a function, which may raise or answer with something
-- other than bytes.
pub data Psk : Type 0 where
  psk_bytes : Bytes → Psk
  psk_table : (Bytes → Option Bytes) → Psk
  psk_function : (Bytes → Result (Option Bytes)) → Psk

abbrev pub must_be_bytes : Option Bytes → Result Bytes
must_be_bytes none = err handshake_error
must_be_bytes (some psk) = ok psk

abbrev pub or_default : Option Bytes → Option Bytes → Result Bytes
or_default (some psk) default = ok psk
or_default none default = must_be_bytes default

unfoldable pub resolve_psk : Psk → Bytes → Result Bytes
resolve_psk (psk_bytes psk) device_id = ok psk
resolve_psk (psk_table table) device_id = or_default (table device_id) (table [])
resolve_psk (psk_function f) device_id = f device_id >>= must_be_bytes

-- `except asyncio.IncompleteReadError: raise HandshakeError`.
abbrev pub or_closed : Result Frame → Result Frame
or_closed (ok f) = ok f
or_closed (err Error.incomplete_read_error) = err handshake_error
or_closed (err e) = err e

-- `struct.pack("<H", USMP_MAGIC) + bytes([USMP_VERSION, int(type_)])`.
abbrev pub hmac_prefix : PacketType → Bytes
hmac_prefix type = 0xcd ∷ 0xab ∷ 0x02 ∷ type_int type ∷ []

-- What a HELLO tells the server.
pub record Hello : Type 0 where
  pub device_id : Bytes
  pub pub_c : Bytes
  pub psk : Bytes

unfoldable pub open_hello : Psk → Result Frame → Result Hello
open_hello psk read = do
  f ← or_closed read
  raise_if (not (same_type f.type hello)) handshake_error
  raise_if (not (f.length == 38) && not (f.length == 54)) handshake_error
  let device_id = take usmp_device_id_len f.payload
  resolved ← resolve_psk psk device_id
  raise_if (ltb (length resolved) 16) handshake_error
  ok (record {
    device_id = device_id;
    pub_c = take usmp_pub_key_len (drop usmp_device_id_len f.payload);
    psk = resolved;
  })

-- The state of a coroutine and how a part of it ends; the next part runs if it does not raise.
unfoldable pub and_then : {S A B : Type 0} → Result A × S → (A → S → Result B × S) → Result B × S
and_then (ok a, s) next = next a s
and_then (err e, s) next = (err e, s)

module _ (P : Primitives) where
  -- `_compute_hmac`, over the parts put together.
  unfoldable pub compute_hmac : Bytes → Bytes → Bytes
  compute_hmac psk parts = P.hmac_sha256 psk parts

  unfoldable pub client_hmac : Bytes → Bytes → Bytes → Bytes → Bytes → Bytes
  client_hmac psk nonce device_id pub_c pub_s =
      compute_hmac psk (hmac_prefix hello_ack ++ (nonce ++ (device_id ++ (pub_c ++ pub_s))))

  unfoldable pub server_hmac : Bytes → Bytes → Bytes → Bytes → Bytes → Bytes
  server_hmac psk nonce session_id pub_c pub_s =
      compute_hmac psk (hmac_prefix session_ok ++ (nonce ++ (session_id ++ (pub_c ++ pub_s))))

  unfoldable pub check_ack : Hello → Bytes → Bytes → Result Frame → Result (Unit {0})
  check_ack h nonce pub_s read = do
    f ← or_closed read
    raise_if (not (same_type f.type hello_ack)) handshake_error
    raise_if (not (f.length == usmp_hmac_len)) handshake_error
    raise_if
        (not (
          bytes_eq (client_hmac h.psk nonce h.device_id h.pub_c pub_s)
            (take usmp_hmac_len f.payload)))
        auth_error

  module _ {T : Type 0} (tr : Transport T) where
    -- `transport.write_frame` with the limiter's table alongside.
    abbrev pub write_on : PacketType → Bytes → Table × T → Result (Unit {0}) × (Table × T)
    write_on type payload (table, t) =
        let (result, t') = tr.write_frame type payload 0 t in (result, (table, t'))

    -- The `try` block of `server_handshake`, from `HELLO` to the session data.
    unfoldable pub serve :
        Bytes
        → Psk
        → Bytes
        → Bytes
        → Bytes
        → Result Frame
        → Result Frame
        → Table × T
        → Result SessionInfo × (Table × T)
    serve limiter_key psk priv_s nonce session_id hello_read ack_read s =
        let pub_s = P.public_key priv_s in
        and_then (open_hello psk hello_read, s)
          (λ h s1. and_then (write_on challenge (nonce ++ pub_s) s1) (λ _ s2.
            and_then (derive_session_keys P priv_s h.pub_c nonce h.pub_c pub_s, s2)
              (λ keys s3.
                and_then (check_ack h nonce pub_s ack_read, s3)
                  (λ _ s4.
                    and_then
                      (write_on session_ok
                        (session_id ++ server_hmac h.psk nonce session_id h.pub_c pub_s)
                        (s4.0, tr.set_session_keys keys.1 keys.0 s4.1))
                      (λ _ s5. (
                        session_info h.device_id session_id keys.1 keys.0,
                        (delete bytes_key limiter_key s5.0, s5.1),
                      ))))))

    -- The two `except` clauses: disconnects are not counted, protocol failures are.
    abbrev pub is_disconnect : Error → Bool
    is_disconnect Error.incomplete_read_error = true
    is_disconnect Error.eof_error = true
    is_disconnect e = is_os_error e

    -- An exception of `record_failed_handshake` takes the place of the one handled.
    abbrev pub recorded_failure :
        Error → Result (Unit {0}) × Table → T → Result SessionInfo × (Table × T)
    recorded_failure e (ok u, table) t = (err e, (table, t))
    recorded_failure e (err e', table) t = (err e', (table, t))

    unfoldable pub count_failure :
        Bytes → ℕ → Result SessionInfo × (Table × T) → Result SessionInfo × (Table × T)
    count_failure limiter_key failed_at (ok info, s) = (ok info, s)
    count_failure limiter_key failed_at (err e, (table, t)) =
        if not (is_disconnect e) && (is_usmp_error e || (is_value_error e || is_struct_error e))
        then recorded_failure e (record_failed_handshake limiter_key failed_at table) t
        else (err e, (table, t))

    -- `server_handshake`, which begins at `now` and, if it fails, fails at `failed_at`.
    unfoldable pub server_handshake :
        Bytes
        → ℕ
        → ℕ
        → Psk
        → Bytes
        → Bytes
        → Bytes
        → Result Frame
        → Result Frame
        → Table × T
        → Result SessionInfo × (Table × T)
    server_handshake limiter_key now failed_at psk priv_s nonce session_id hello_read ack_read s =
        if is_locked limiter_key now s.0
        then (err handshake_error, s)
        else count_failure limiter_key failed_at
            (serve limiter_key psk priv_s nonce session_id hello_read ack_read s)

    -- The client after its first read: a `HELLO_RETRY` makes it send the cookie and read again. The last
    -- component is what the next read brings.
    unfoldable pub after_retry :
        Bytes → Frame → Result Frame → Result Frame → T → Result (Frame × Result Frame) × T
    after_retry hello_payload f read2 read3 t =
        if same_type f.type hello_retry
        then (if not (f.length == 16)
            then (err handshake_error, t)
            else and_then (tr.write_frame hello (hello_payload ++ take 16 f.payload) 1 t)
                (λ _ t'. ((or_closed read2 >>= λ f'. ok (f', read3)), t')))
        else (ok (f, read2), t)

    -- What a CHALLENGE tells the client: the nonce and the server's public key.
    unfoldable pub open_challenge : Frame → Result (Bytes × Bytes)
    open_challenge f = do
      raise_if (not (same_type f.type challenge)) handshake_error
      raise_if (not (f.length == usmp_nonce_len + usmp_pub_key_len)) handshake_error
      ok (take usmp_nonce_len f.payload, take usmp_pub_key_len (drop usmp_nonce_len f.payload))

    -- The session id of a SESSION_OK whose HMAC is right.
    unfoldable pub open_session_ok : Bytes → Bytes → Bytes → Bytes → Result Frame → Result Bytes
    open_session_ok psk nonce pub_c pub_s read = do
      f ← or_closed read
      raise_if (not (same_type f.type session_ok)) handshake_error
      raise_if (not (f.length == usmp_session_id_len + usmp_hmac_len)) handshake_error
      let session_id = take usmp_session_id_len f.payload
      raise_if
          (not (
            bytes_eq (server_hmac psk nonce session_id pub_c pub_s)
              (take usmp_hmac_len (drop usmp_session_id_len f.payload))))
          auth_error
      ok session_id

    -- From the CHALLENGE on.
    unfoldable pub finish_client :
        Bytes → Bytes → Bytes → Frame × Result Frame → T → Result SessionInfo × T
    finish_client psk device_id priv_c (f, read) t =
        let pub_c = P.public_key priv_c in
        and_then (open_challenge f, t)
          (λ c t1.
            and_then (derive_session_keys P priv_c c.1 c.0 pub_c c.1, t1)
              (λ keys t2.
                and_then (tr.write_frame hello_ack (client_hmac psk c.0 device_id pub_c c.1) 2 t2)
                  (λ _ t3.
                    and_then (open_session_ok psk c.0 pub_c c.1 read, t3)
                      (λ session_id t4. (
                        session_info device_id session_id keys.0 keys.1,
                        tr.set_session_keys keys.0 keys.1 t4,
                      )))))

    -- `client_handshake`, with what its reads bring.
    unfoldable pub client_handshake :
        Bytes
        → Bytes
        → Bytes
        → Result Frame
        → Result Frame
        → Result Frame
        → T
        → Result SessionInfo × T
    client_handshake psk device_id priv_c read1 read2 read3 t =
        let hello_payload = device_id ++ P.public_key priv_c in
        if ltb (length psk) 16
        then (err value_error, t)
        else and_then (tr.write_frame hello hello_payload 0 t) (λ _ t1.
          and_then (or_closed read1, t1)
            (λ f t2.
              and_then (after_retry hello_payload f read2 read3 t2)
                (λ c t3. finish_client psk device_id priv_c c t3)))
