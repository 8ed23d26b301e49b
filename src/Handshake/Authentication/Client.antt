-- ===== src/Handshake/Authentication/Client.antt =====
-- When the handshake of a client succeeds.
use usmp.Prelude.{
  ◌≡◌, ◌≤◌, ◌⊎◌, ◌∙◌, ◌++◌, ap, sym, refl, not, true, Bytes, bytes_eq, eq_of_bytes_eq, length, take,
  drop, ltb, ◌==◌, arith, Bool-cases, inl, inr, le_of_ltb,
}
use usmp.Errors.{Result, ok, err, ◌>>=◌, handshake_error, value_error}
use usmp.Types.{Frame, SessionInfo, same_type, hello_retry, session_info}
use usmp.Crypto.Backend.{Primitives}
use usmp.Transport.{Transport}
use usmp.Handshake.{
  or_closed, server_hmac, after_retry, open_challenge, open_session_ok, finish_client,
  client_handshake,
}
use usmp.Handshake.Authentication.{and_then-ok, or_closed-ok}

session_info-session_id :
    (device_id session_id tx_key rx_key : Bytes) (info : SessionInfo)
    → session_info device_id session_id tx_key rx_key ≡ ok info
    → session_id ≡ info.session_id
unfolding session_info
session_info-session_id device_id session_id tx_key rx_key info h = ground arith

ok-eq : {A : Type 0} (a b : A) → ok a ≡ ok b → a ≡ b
ok-eq a b h = cc

next_frame :
    (r read3 : Result Frame) (c : Frame × Result Frame)
    → (r >>= λ f. ok (f, read3)) ≡ ok c
    → (r ≡ ok c.0) × (c.1 ≡ read3)
next_frame (ok f) read3 c h =
    let same : (f, read3) ≡ c = cc in (ap (λ x. ok x.0) same, sym (ap (λ x. x.1) same))
next_frame (err e) read3 c h = cc

-- The two frames by the reads that brought them.
which_reads :
    (read1 read2 read3 : Result Frame) (f1 f : Frame) (c : Frame × Result Frame)
    → read1 ≡ ok f1
    → c.1 ≡ ok f
    → ((c.0 ≡ f1) × (c.1 ≡ read2)) ⊎ ((read2 ≡ ok c.0) × (c.1 ≡ read3))
    → ((read1 ≡ ok c.0) × (read2 ≡ ok f)) ⊎ ((read2 ≡ ok c.0) × (read3 ≡ ok f))
which_reads read1 read2 read3 f1 f c h hf (inl (a, b)) = inl (h ∙ ap ok (sym a), sym b ∙ hf)
which_reads read1 read2 read3 f1 f c h hf (inr (a, b)) = inr (a, sym b ∙ hf)

module _ (P : Primitives) {T : Type 0} (tr : Transport T) where
  -- A SESSION_OK that the client takes.
  open_session_ok-ok :
      (psk nonce pub_c pub_s : Bytes) (f : Frame) (session_id : Bytes)
      → open_session_ok P tr psk nonce pub_c pub_s (ok f) ≡ ok session_id
      → (session_id ≡ take 16 f.payload)
        × (server_hmac P psk nonce session_id pub_c pub_s ≡ take 32 (drop 16 f.payload))
  unfolding open_session_ok
  open_session_ok-ok psk nonce pub_c pub_s f session_id h =
      let same : session_id ≡ take 16 f.payload = ground arith in
      let checked : bytes_eq (server_hmac P psk nonce (take 16 f.payload) pub_c pub_s)
            (take 32 (drop 16 f.payload))
          ≡ true =
        ground arith in
      (same, rw same (eq_of_bytes_eq _ _ checked))

  finish_client-ok :
      (psk device_id priv_c : Bytes) (c : Frame × Result Frame) (t t' : T) (info : SessionInfo)
      → finish_client P tr psk device_id priv_c c t ≡ (ok info, t')
      → (nonce : Bytes) × (pub_s : Bytes) × (open_challenge P tr c.0 ≡ ok (nonce, pub_s))
        × (open_session_ok P tr psk nonce (P.public_key priv_c) pub_s c.1 ≡ ok info.session_id)
  unfolding finish_client
  finish_client-ok psk device_id priv_c (f, read) t t' info e =
      let (c, t1, e1, r1) = and_then-ok _ _ e in
      let (keys, t2, e2, r2) = and_then-ok _ _ r1 in
      let (u, t3, e3, r3) = and_then-ok _ _ r2 in
      let (session_id, t4, e4, r4) = and_then-ok _ _ r3 in
      let named : ok session_id ≡ ok info.session_id =
        ap ok (session_info-session_id _ _ _ _ info (ap (λ r. r.0) r4)) in
      (c.0, c.1, ap (λ r. r.0) e1, ap (λ r. r.0) e4 ∙ named)

  -- The frames that the client goes on with, after a cookie or without one.
  after_retry-ok :
      (hello_payload : Bytes) (f : Frame) (read2 read3 : Result Frame) (c : Frame × Result Frame)
      (t t' : T)
      → after_retry P tr hello_payload f read2 read3 t ≡ (ok c, t')
      → ((c.0 ≡ f) × (c.1 ≡ read2)) ⊎ ((read2 ≡ ok c.0) × (c.1 ≡ read3))
  unfolding after_retry
  after_retry-ok hello_payload f read2 read3 c t t' e =
      elim (Bool-cases (same_type f.type hello_retry)) [
        | inl asked ↦ elim (Bool-cases (not (f.length == 16))) [
          | inl short ↦
              let bad : ◌≡◌ {A = Result (Frame × Result Frame) × T} (err handshake_error, t)
                  (ok c, t') =
                rw (asked, short) at e in
              cc
          | inr right ↦
              let (u, t1, e1, r1) = and_then-ok _ _ (rw (asked, right) at e) in
              let (read, rest) = next_frame (or_closed read2) read3 c (ap (λ r. r.0) r1) in
              inr (or_closed-ok read2 c.0 read, rest)
        ]
        | inr plain ↦
            let same : (f, read2) ≡ c = ok-eq (f, read2) c (ap (λ r. r.0) (rw plain at e)) in
            inl (sym (ap (λ x. x.0) same), sym (ap (λ x. x.1) same))
      ]

  -- What the last read of a client brought, once it takes it.
  session_ok_read :
      (psk nonce pub_c pub_s : Bytes) (read : Result Frame) (session_id : Bytes)
      → open_session_ok P tr psk nonce pub_c pub_s read ≡ ok session_id
      → (f : Frame) × (read ≡ ok f)
        × (session_id ≡ take 16 f.payload)
        × (server_hmac P psk nonce session_id pub_c pub_s ≡ take 32 (drop 16 f.payload))
  unfolding open_session_ok
  session_ok_read psk nonce pub_c pub_s (ok f) session_id h =
      let (same, code) = open_session_ok-ok psk nonce pub_c pub_s f session_id h in
      (f, refl, same, code)
  session_ok_read psk nonce pub_c pub_s (err e) session_id h = ground arith

  -- A client whose handshake succeeds, over any transport, has a key of at least 16 bytes, had read
  -- a CHALLENGE that it took apart, and right after it a frame that begins with the identifier of
  -- the session and goes on with the authentication code of that identifier, the CHALLENGE's nonce
  -- and public key and its own public key under the key.
  pub client_authenticates :
      (psk device_id priv_c : Bytes) (read1 read2 read3 : Result Frame) (t t' : T)
      (info : SessionInfo)
      → client_handshake P tr psk device_id priv_c read1 read2 read3 t ≡ (ok info, t')
      → (16 ≤ length psk)
        × (asked : Frame) × (f : Frame) × (nonce : Bytes) × (pub_s : Bytes) × (((read1 ≡ ok asked)
              × (read2 ≡ ok f))
            ⊎ ((read2 ≡ ok asked) × (read3 ≡ ok f)))
        × (open_challenge P tr asked ≡ ok (nonce, pub_s))
        × (info.session_id ≡ take 16 f.payload)
        × (server_hmac P psk nonce info.session_id (P.public_key priv_c) pub_s
            ≡ take 32 (drop 16 f.payload))
  unfolding client_handshake
  client_authenticates psk device_id priv_c read1 read2 read3 t t' info e =
      elim (Bool-cases (ltb (length psk) 16)) [
        | inl short ↦
            let bad : ◌≡◌ {A = Result SessionInfo × T} (err value_error, t) (ok info, t') =
              rw short at e in
            cc
        | inr long ↦
            let (u, t1, e1, r1) = and_then-ok _ _ (rw long at e) in
            let (f1, t2, e2, r2) = and_then-ok _ _ r1 in
            let (c, t3, e3, r3) = and_then-ok _ _ r2 in
            let first : read1 ≡ ok f1 = or_closed-ok read1 f1 (ap (λ r. r.0) e2) in
            let (nonce, pub_s, opened, taken) =
              finish_client-ok psk device_id priv_c c t3 t' info r3 in
            let (f, read, id, code) =
              session_ok_read psk nonce (P.public_key priv_c) pub_s c.1 info.session_id taken in
            (
              le_of_ltb (length psk) 16 long,
              c.0,
              f,
              nonce,
              pub_s,
              which_reads read1 read2 read3 f1 f c first read
                  (after_retry-ok (device_id ++ P.public_key priv_c) f1 read2 read3 c t2 t3 e3),
              opened,
              id,
              code,
            )
      ]
