-- ===== src/Handshake/Authentication.antt =====
-- When the handshake of a server succeeds.
pub mod Client
use usmp.Prelude.{
  ℕ, ◌≡◌, ◌⊎◌, ap, refl, not, ◌&&◌, ◌||◌, Bool, true, false, Bytes, eq_of_bytes_eq, take, arith,
  Bool-cases, inl, inr, if◌then◌else◌,
}
use usmp.Errors.{is_usmp_error, is_value_error, is_struct_error, Error, Result, ok, err}
use usmp.Types.{Frame, SessionInfo}
use usmp.Crypto.Backend.{Primitives}
use usmp.Transport.{Transport}
use usmp.Handshake.{
  Psk, Hello, open_hello, or_closed, and_then, check_ack, client_hmac, serve, is_disconnect,
  recorded_failure, count_failure, server_handshake,
}
use usmp.Handshake.Limiter.{Table, is_locked, record_failed_handshake}

-- A sequence of two parts that succeeds has a first part that succeeds, and a second one.
pub and_then-ok :
    {S A B : Type 0} (m : Result A × S) (next : A → S → Result B × S) {b : B} {s' : S}
    → and_then m next ≡ (ok b, s')
    → (a : A) × (s : S) × (m ≡ (ok a, s)) × (next a s ≡ (ok b, s'))
unfolding and_then
and_then-ok (ok a, s) next h = (a, s, refl, h)
and_then-ok (err e, s) next h = cc

pub or_closed-ok : (read : Result Frame) (f : Frame) → or_closed read ≡ ok f → read ≡ ok f
or_closed-ok (ok f) g h = h
or_closed-ok (err e) g h = ground arith

if_either {ℓ} :
    {A : Type ℓ} (test : Bool) (x y : A) {z : A} → (if test then x else y) ≡ z → (x ≡ z) ⊎ (y ≡ z)
if_either true x y h = inl h
if_either false x y h = inr h

module _ (P : Primitives) where
  check_ack-ok :
      (h : Hello) (nonce pub_s : Bytes) (read : Result Frame)
      → check_ack P h nonce pub_s read ≡ ok tt
      → (f : Frame) × (read ≡ ok f)
        × (client_hmac P h.psk nonce h.device_id h.pub_c pub_s ≡ take 32 f.payload)
  unfolding check_ack
  check_ack-ok h nonce pub_s (err e) p = ground arith
  check_ack-ok h nonce pub_s (ok f) p = (
    f,
    refl,
    eq_of_bytes_eq (client_hmac P h.psk nonce h.device_id h.pub_c pub_s) (take 32 f.payload)
        (ground arith),
  )

  module _ {T : Type 0} (tr : Transport T) where
    recorded_failure_err :
        (e : Error) (r : Result (Unit {0}) × Table) (t : T) (info : SessionInfo) (s' : Table × T)
        → recorded_failure P tr e r t ≡ (ok info, s')
        → (false ≡ true)
    recorded_failure_err e (ok u, table) t info s' h = cc
    recorded_failure_err e (err e', table) t info s' h = cc

    count_failure-ok :
        (limiter_key : Bytes) (failed_at : ℕ) (r : Result SessionInfo × (Table × T))
        (info : SessionInfo) (s' : Table × T)
        → count_failure P tr limiter_key failed_at r ≡ (ok info, s')
        → r ≡ (ok info, s')
    unfolding count_failure
    count_failure-ok limiter_key failed_at (ok i, s) info s' h = h
    count_failure-ok limiter_key failed_at (err e, (table, t)) info s' h =
        let recorded : Result (Unit {0}) × Table =
          record_failed_handshake limiter_key failed_at table in
        elim (if_either
          (not (is_disconnect P tr e)
            && (is_usmp_error e || (is_value_error e || is_struct_error e)))
          (recorded_failure P tr e recorded t) (err e, (table, t)) h) [
            | inl counted ↦
                let no : false ≡ true = recorded_failure_err e recorded t info s' counted in cc
            | inr passed ↦ passed
          ]

    serve-ok :
        (limiter_key : Bytes) (psk : Psk) (priv_s nonce session_id : Bytes)
        (hello_read ack_read : Result Frame) (s : Table × T) (info : SessionInfo) (s' : Table × T)
        → serve P tr limiter_key psk priv_s nonce session_id hello_read ack_read s ≡ (ok info, s')
        → (h : Hello) × (open_hello psk hello_read ≡ ok h)
          × (check_ack P h nonce (P.public_key priv_s) ack_read ≡ ok tt)
    unfolding serve
    serve-ok limiter_key psk priv_s nonce session_id hello_read ack_read s info s' e =
        let (h, s1, e1, r1) = and_then-ok _ _ e in
        let (u2, s2, e2, r2) = and_then-ok _ _ r1 in
        let (keys, s3, e3, r3) = and_then-ok _ _ r2 in
        let (u4, s4, e4, r4) = and_then-ok _ _ r3 in (h, ap (λ r. r.0) e1, ap (λ r. r.0) e4)

    server_succeeded :
        (limiter_key : Bytes) (now failed_at : ℕ) (psk : Psk) (priv_s nonce session_id : Bytes)
        (hello_read ack_read : Result Frame) (s : Table × T) (info : SessionInfo) (s' : Table × T)
        → server_handshake P tr limiter_key now failed_at psk priv_s nonce session_id hello_read
            ack_read s
          ≡ (ok info, s')
        → (is_locked limiter_key now s.0 ≡ false)
          × (serve P tr limiter_key psk priv_s nonce session_id hello_read ack_read s
              ≡ (ok info, s'))
    unfolding server_handshake
    server_succeeded limiter_key now failed_at psk priv_s nonce session_id hello_read ack_read s
          info s' e =
        elim (Bool-cases (is_locked limiter_key now s.0)) [
          | inl locked ↦ let e' = rw locked at e in cc
          | inr unlocked ↦
              (unlocked, count_failure-ok limiter_key failed_at _ info s' (rw unlocked at e))
        ]

    -- A server whose handshake succeeds, over any transport, had not locked the address out, had
    -- taken a HELLO apart, and had read an acknowledgement that begins with the authentication code
    -- of its own nonce and public key and of the HELLO's contents under the key for the device.
    pub server_authenticates :
        (limiter_key : Bytes) (now failed_at : ℕ) (psk : Psk) (priv_s nonce session_id : Bytes)
        (hello_read ack_read : Result Frame) (s : Table × T) (info : SessionInfo) (s' : Table × T)
        → server_handshake P tr limiter_key now failed_at psk priv_s nonce session_id hello_read
            ack_read s
          ≡ (ok info, s')
        → (is_locked limiter_key now s.0 ≡ false)
          × (h : Hello) × (f : Frame) × (open_hello psk hello_read ≡ ok h)
          × (ack_read ≡ ok f)
          × (client_hmac P h.psk nonce h.device_id h.pub_c (P.public_key priv_s)
              ≡ take 32 f.payload)
    server_authenticates limiter_key now failed_at psk priv_s nonce session_id hello_read ack_read s
          info s' e =
        let (unlocked, served) =
          server_succeeded limiter_key now failed_at psk priv_s nonce session_id hello_read ack_read
            s info s' e in
        let (h, opened, checked) =
          serve-ok limiter_key psk priv_s nonce session_id hello_read ack_read s info s' served in
        let (f, read, code) = check_ack-ok h nonce (P.public_key priv_s) ack_read checked in
        (unlocked, h, f, opened, read, code)
