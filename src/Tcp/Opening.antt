-- ===== src/Tcp/Opening.antt =====
-- The frames of a handshake over TCP: `_handshake.py` over transport/tcp.py of sdk/python/src/usmp.
use mathlib.Core.List.{append_assoc, append-nil}
use usmp.Prelude.{
  ◌+◌, ◌^◌, ◌≤◌, ◌<◌, ◌≡◌, ◌∙◌, refl, ap, false, Bool, some, [], ◌∷◌, ◌++◌, Bytes, AreBytes,
  AreBytes-append, length, length-append, arith,
}
use usmp.Errors.{ok}
use usmp.Types.{usmp_max_payload}
use usmp.Frame.Wire.{frame_bytes, encode_frame-eq}
use usmp.Crypto.Backend.{Primitives, PrimitiveLaws}
use usmp.Session.Delivery.Frame.{Sent}
use usmp.Handshake.{client_hmac, server_hmac, compute_hmac}
use usmp.Handshake.Agreement.Steps.{frame_of, hello_sent, challenge_sent, ack_sent, ok_sent}
use usmp.Tcp.{StreamWriter, write_data, write_frame}
use usmp.Tcp.Frames.{KeepsBytes, AreInRange, all_bytes, read_all, read_all-bytes, write_data-ok}

-- Two frames read from the bytes of a connection.
pub two_read :
    (x y : Sent) (rest : Bytes) (eof : Bool)
    → AreInRange (x ∷ [])
    → AreInRange (y ∷ [])
    → read_all 2 false (record { buffer = all_bytes (x ∷ y ∷ []) ++ rest; eof = eof })
      ≡ some (frame_of x ∷ frame_of y ∷ [], record { buffer = rest; eof = eof })
two_read x y rest eof (xl, xs, xb, u) hy =
    read_all-bytes (x ∷ y ∷ []) rest false eof (xl, xs, xb, hy)

-- A frame that fits is written as its bytes.
module _ {W : Type 0} (writer : StreamWriter W) (written : W → Bytes)
    (keeps : KeepsBytes writer written) where
  abbrev pub after_write : Sent → W → W
  after_write x w = (write_data writer (ok (frame_bytes x.type x.seq x.payload)) w).1

  pub write_frame-ok :
      (x : Sent) (w : W)
      → AreInRange (x ∷ [])
      → write_frame writer x.type x.payload x.seq w ≡ (ok tt, after_write x w)
  unfolding write_frame
  write_frame-ok x w (hl, hs, hb, u) =
      let (sent, kept) =
        write_data-ok writer written keeps (frame_bytes x.type x.seq x.payload) w in
      rw (encode_frame-eq x.type x.payload x.seq hl hs hb, ← sent) refl

  pub two_written :
      (x y : Sent) (w : W)
      → written (after_write y (after_write x w)) ≡ written w ++ all_bytes (x ∷ y ∷ [])
  two_written x y w =
      let (s1, k1) = write_data-ok writer written keeps (frame_bytes x.type x.seq x.payload) w in
      let (s2, k2) =
        write_data-ok writer written keeps (frame_bytes y.type y.seq y.payload) (after_write x w) in
      k2
      ∙ ap (λ b. b ++ frame_bytes y.type y.seq y.payload) k1
      ∙ rw
          (
            append_assoc (written w) (frame_bytes x.type x.seq x.payload)
                (frame_bytes y.type y.seq y.payload),
            append-nil (frame_bytes y.type y.seq y.payload),
          )
          refl

module _ (P : Primitives) (laws : PrimitiveLaws P) (psk device_id nonce session_id : Bytes)
    (priv_c priv_s : Bytes) (long : 16 ≤ length psk) (id_size : length device_id ≡ 6)
    (nonce_size : length nonce ≡ 32) (session_size : length session_id ≡ 16)
    (id_bytes : AreBytes device_id) (nonce_bytes : AreBytes nonce)
    (session_bytes : AreBytes session_id) where
  -- What the two sides write before the session.
  abbrev pub hello_out : Sent
  hello_out = hello_sent P laws psk device_id nonce session_id priv_c priv_s

  abbrev pub challenge_out : Sent
  challenge_out = challenge_sent P laws psk device_id nonce session_id priv_c priv_s

  abbrev pub ack_out : Sent
  ack_out = ack_sent P laws psk device_id nonce session_id priv_c priv_s

  abbrev pub ok_out : Sent
  ok_out = ok_sent P laws psk device_id nonce session_id priv_c priv_s

  client_hmac-bytes :
      (n d p q : Bytes)
      → (length (client_hmac P psk n d p q) ≡ 32) × AreBytes (client_hmac P psk n d p q)
  unfolding client_hmac compute_hmac
  client_hmac-bytes n d p q = (laws.length-hmac psk _, laws.bytes-hmac psk _)

  server_hmac-bytes :
      (n d p q : Bytes)
      → (length (server_hmac P psk n d p q) ≡ 32) × AreBytes (server_hmac P psk n d p q)
  unfolding server_hmac compute_hmac
  server_hmac-bytes n d p q = (laws.length-hmac psk _, laws.bytes-hmac psk _)

  -- Two parts that fit into a frame.
  joined-AreInRange :
      (x : Sent) (first second : Bytes)
      → x.payload ≡ first ++ second
      → length first + length second ≤ usmp_max_payload
      → x.seq < 2 ^ 32
      → AreBytes first
      → AreBytes second
      → AreInRange (x ∷ [])
  joined-AreInRange x first second h size seq hf hs = (
    rw h (omega (arith, length-append {0} first second)),
    seq,
    rw h (AreBytes-append first second hf hs),
    tt,
  )

  pub hello-AreInRange : AreInRange (hello_out ∷ [])
  hello-AreInRange =
      joined-AreInRange hello_out device_id (P.public_key priv_c) refl
        (omega (arith, (laws.public_key_lem priv_c).1)) (omega arith) id_bytes
        (laws.bytes-public priv_c)

  pub challenge-AreInRange : AreInRange (challenge_out ∷ [])
  challenge-AreInRange =
      joined-AreInRange challenge_out nonce (P.public_key priv_s) refl
        (omega (arith, (laws.public_key_lem priv_s).1)) (omega arith) nonce_bytes
        (laws.bytes-public priv_s)

  pub ack-AreInRange : AreInRange (ack_out ∷ [])
  ack-AreInRange =
      let (size, hb) =
        client_hmac-bytes nonce device_id (P.public_key priv_c) (P.public_key priv_s) in
      (omega (arith, size), omega arith, hb, tt)

  pub ok-AreInRange : AreInRange (ok_out ∷ [])
  ok-AreInRange =
      let (size, hb) =
        server_hmac-bytes nonce session_id (P.public_key priv_c) (P.public_key priv_s) in
      joined-AreInRange ok_out session_id _ refl (omega (arith, size)) (omega arith) session_bytes
        hb
