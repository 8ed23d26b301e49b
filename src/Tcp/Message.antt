-- ===== src/Tcp/Message.antt =====
-- A client and a server over TCP, from `connect` to the first message, as bytes: `_client.py`,
-- `_handshake.py`, `_session.py`, `_frame.py` and transport/tcp.py of sdk/python/src/usmp together.
use mathlib.Core.List.{append_assoc}
use usmp.Prelude.{
  ℕ, ◌+◌, ◌*◌, ◌≤◌, ◌≡◌, refl, ap, true, false, Bool, none, some, [], ◌∷◌, ◌++◌, Bytes, AreBytes,
  length, arith,
}
use usmp.Prelude.Dict.{bytes_key, delete}
use usmp.Errors.{Result, ok}
use usmp.Types.{SessionInfo, Frame, usmp_max_data_len, usmp_max_frames}
use usmp.Crypto.{derive_session_keys}
use usmp.Crypto.Agreement.{derive_session_keys-length}
use usmp.Crypto.Backend.{Primitives, PrimitiveLaws}
use usmp.Session.{Session, new_session}
use usmp.Session.Receive.{recv as session_recv}
use usmp.Session.Delivery.Frame.{Sent}
use usmp.Handshake.{psk_bytes, server_handshake}
use usmp.Handshake.Limiter.{Table, is_locked}
use usmp.Handshake.Agreement.Steps.{
  frame_of, hello_sent, challenge_sent, ack_sent, ok_sent, session_data, server_succeeds_over,
  client_succeeds_over,
}
use usmp.Client.{Client, connect, send}
use usmp.Client.Message.{connect-ok, send-ok}
use usmp.Tcp.{StreamWriter, tcp_transport}
use usmp.Tcp.Frames.{KeepsBytes, AreInRange, all_bytes, read_all}
use usmp.Tcp.Delivery.{TcpMessage, stream_arrivals, recv-send_tcp}
use usmp.Tcp.Opening.{
  after_write, write_frame-ok, two_written, hello-AreInRange, challenge-AreInRange, ack-AreInRange,
  ok-AreInRange, two_read,
}

module _ (P : Primitives) (laws : PrimitiveLaws P) (nonce session_id priv_c priv_s : Bytes)
    {W R : Type 0} (writer : StreamWriter W) (written : W → Bytes)
    (keeps : KeepsBytes writer written) (peer : StreamWriter R) (answered : R → Bytes)
    (peer_keeps : KeepsBytes peer answered) (c : Client W) (long : 16 ≤ length c.psk)
    (id_size : length c.device_id ≡ 6) (nonce_size : length nonce ≡ 32)
    (session_size : length session_id ≡ 16) (keys : Bytes × Bytes)
    (derived : derive_session_keys P priv_c
        (P.public_key priv_s)
        nonce
        (P.public_key priv_c)
        (P.public_key priv_s)
      ≡ ok keys)
    (id_bytes : AreBytes c.device_id) (nonce_bytes : AreBytes nonce)
    (session_bytes : AreBytes session_id) (limiter_key : Bytes) (now failed_at : ℕ) (table : Table)
    (unlocked : is_locked limiter_key now table ≡ false) (bytes : Bytes)
    (are_bytes : AreBytes bytes) (fits : length bytes ≤ usmp_max_data_len * usmp_max_frames)
    (spare : Result Frame) (start : ℕ) (w : W) (r : R) where
  abbrev hello : Sent
  hello = hello_sent P laws c.psk c.device_id nonce session_id priv_c priv_s

  abbrev challenge : Sent
  challenge = challenge_sent P laws c.psk c.device_id nonce session_id priv_c priv_s

  abbrev ack : Sent
  ack = ack_sent P laws c.psk c.device_id nonce session_id priv_c priv_s

  abbrev verdict : Sent
  verdict = ok_sent P laws c.psk c.device_id nonce session_id priv_c priv_s

  abbrev side : Bytes → Bytes → SessionInfo
  side =
      session_data P laws c.psk c.device_id nonce session_id priv_c priv_s long id_size nonce_size
        session_size keys derived

  abbrev pub client_connects : Result (Unit {0}) × Client W
  client_connects =
      connect P (tcp_transport writer) now priv_c none (ok (frame_of challenge))
        (ok (frame_of verdict)) spare (ok w) c

  -- What the two sides do, and the bytes that pass between them.
  pub record Exchange : Type 0 where
    pub connects : client_connects.0 ≡ ok tt
    pub server : SessionInfo
    pub answer : R
    pub serves :
        server_handshake P
          (tcp_transport peer)
          limiter_key
          now
          failed_at
          (psk_bytes c.psk)
          priv_s
          nonce
          session_id
          (ok (frame_of hello))
          (ok (frame_of ack))
          (table, r)
        ≡ (ok server, (delete bytes_key limiter_key table, answer))
    pub client_reads :
        (rest : Bytes) (eof : Bool)
        → read_all 2 false (record { buffer = answered answer ++ rest; eof = eof })
          ≡ some (frame_of challenge ∷ frame_of verdict ∷ [], record { buffer = rest; eof = eof })
    pub sender : Client W
    pub session : Session W
    pub holds : sender.session ≡ some session
    pub sends : send P (tcp_transport writer) bytes client_connects.1 ≡ (some (ok tt), sender)
    pub sent : Bytes
    pub server_reads :
        (rest : Bytes) (eof : Bool)
        → read_all 2 false (record { buffer = written session.transport ++ rest; eof = eof })
          ≡ some (frame_of hello ∷ frame_of ack ∷ [], record { buffer = sent ++ rest; eof = eof })
    pub count : ℕ
    pub receiver : Session R
    pub receives :
        (more : ℕ) (rest : Bytes) (eof : Bool)
        → session_recv P
            (tcp_transport peer)
            none
            start
            (stream_arrivals now (count + more) (record { buffer = sent ++ rest; eof = eof }))
            (new_session server now answer)
          ≡ (some (ok bytes), receiver)

  sizes : (length keys.0 ≡ 32) × (length keys.1 ≡ 32)
  sizes =
      derive_session_keys-length P laws priv_c (P.public_key priv_s) nonce (P.public_key priv_c)
        (P.public_key priv_s) keys derived

  -- The two ends once the handshake is done.
  abbrev opened_c : W
  opened_c = after_write writer written keeps ack (after_write writer written keeps hello w)

  abbrev opened_s : R
  opened_s =
      after_write peer answered peer_keeps verdict
        (after_write peer answered peer_keeps challenge r)

  abbrev session_c : Session W
  session_c = new_session (side keys.0 keys.1) now opened_c

  abbrev session_s : Session R
  session_s = new_session (side keys.1 keys.0) now opened_s

  message : TcpMessage P laws writer peer written keeps now bytes start session_c session_s
  message =
      recv-send_tcp P laws writer peer written keeps now bytes start session_c session_s
        (record {
          key = refl;
          session = refl;
          suite = refl;
          seq = refl;
          key_size = sizes.0;
          id_size = session_size;
        })
        session_bytes are_bytes fits (omega arith)

  hello_fits : AreInRange (hello ∷ [])
  hello_fits =
      hello-AreInRange P laws c.psk c.device_id nonce session_id priv_c priv_s long id_size
        nonce_size session_size id_bytes nonce_bytes session_bytes

  challenge_fits : AreInRange (challenge ∷ [])
  challenge_fits =
      challenge-AreInRange P laws c.psk c.device_id nonce session_id priv_c priv_s long id_size
        nonce_size session_size id_bytes nonce_bytes session_bytes

  ack_fits : AreInRange (ack ∷ [])
  ack_fits =
      ack-AreInRange P laws c.psk c.device_id nonce session_id priv_c priv_s long id_size nonce_size
        session_size id_bytes nonce_bytes session_bytes

  verdict_fits : AreInRange (verdict ∷ [])
  verdict_fits =
      ok-AreInRange P laws c.psk c.device_id nonce session_id priv_c priv_s long id_size nonce_size
        session_size id_bytes nonce_bytes session_bytes

  connected_c :
      client_connects ≡ (ok tt, record c { session = some session_c; has_transport = true })
  connected_c =
      connect-ok P (tcp_transport writer) now priv_c (ok (frame_of challenge))
        (ok (frame_of verdict)) spare c w (side keys.0 keys.1) opened_c
        (client_succeeds_over P laws c.psk c.device_id nonce session_id priv_c priv_s long id_size
          nonce_size session_size keys derived (tcp_transport writer) spare w
          (after_write writer written keeps hello w) opened_c
          (write_frame-ok writer written keeps hello w hello_fits)
          (write_frame-ok writer written keeps ack (after_write writer written keeps hello w)
            ack_fits))

  -- A client and a server of which each keeps all that it writes on its connection, with nothing
  -- written yet, a shared key of at least 16 bytes, identifiers and random data that are bytes and
  -- have the right sizes, an address that is not locked out and a key exchange that gives keys: the
  -- client that is answered the server's frames connects, the server that is sent the client's
  -- frames succeeds, those are the frames that `read_frame` finds in the bytes that the other side
  -- wrote, any message of at most 1808 bytes that the connected client sends goes out behind them,
  -- and the server's `recv` on the bytes that are left returns it, whatever follows.
  pub message_arrives_tcp : written w ≡ [] → answered r ≡ [] → Exchange
  message_arrives_tcp empty_c empty_s = record {
    connects = ap (λ x. x.0) connected_c;
    server = side keys.1 keys.0;
    answer = opened_s;
    serves =
        server_succeeds_over P laws c.psk c.device_id nonce session_id priv_c priv_s long id_size
          nonce_size session_size keys derived (tcp_transport peer) limiter_key now failed_at table
          r (after_write peer answered peer_keeps challenge r) opened_s unlocked
          (write_frame-ok peer answered peer_keeps challenge r challenge_fits)
          (write_frame-ok peer answered peer_keeps verdict
            (after_write peer answered peer_keeps challenge r) verdict_fits);
    client_reads = λ rest eof.
        rw (two_written peer answered peer_keeps challenge verdict r, empty_s)
          (two_read challenge verdict rest eof challenge_fits verdict_fits);
    sender = record c { session = some message.sender; has_transport = true };
    session = message.sender;
    holds = refl;
    sends = rw (ap (λ x. x.1) connected_c) (
        send-ok P (tcp_transport writer) bytes
          (record c { session = some session_c; has_transport = true }) session_c message.sender
          refl message.sends);
    sent = message.sent;
    server_reads = λ rest eof.
        rw
          (
            message.wrote,
            two_written writer written keeps hello ack w,
            empty_c,
            append_assoc (all_bytes (hello ∷ ack ∷ [])) message.sent rest,
          )
          (two_read hello ack (message.sent ++ rest) eof hello_fits ack_fits);
    count = message.count;
    receiver = message.receiver;
    receives = message.receives none;
  }
