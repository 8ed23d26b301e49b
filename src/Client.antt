-- ===== src/Client.antt =====
-- `USMPClient` of sdk/python/src/usmp/_client.py. What `transport_cls.connect` and the reads of the
-- handshake bring are arguments.
pub mod Lifecycle
pub mod Message
use usmp.Prelude.{
  ℕ, ◌≡◌, Bool, true, false, Option, none, some, List, [], ◌∷◌, ◌++◌, Bytes, if◌then◌else◌,
}
use usmp.Errors.{
  Error, Result, ok, err, not_connected_error, usmp_timeout_error, builtin_timeout_error,
}
use usmp.Types.{SessionInfo, Frame}
use usmp.Crypto.Backend.{Primitives}
use usmp.Transport.{Transport}
use usmp.Session.{Session, new_session, send as session_send, send_ping, bye}
use usmp.Session.Receive.{Arrival, recv as session_recv}
use usmp.Handshake.{client_handshake}

-- `_psk`, `_device_id`, `_session`, whether `_transport` is there, and the transports that the client
-- itself has closed, the last one first. The transport is that of the session.
pub record Client (T : Type 0) : Type 0 where
  pub psk : Bytes
  pub device_id : Bytes
  pub session : Option (Session T)
  pub has_transport : Bool
  pub closed : List T

-- `except BaseException`: a `TimeoutError` becomes a `USMPTimeoutError`.
abbrev pub timed_out : Error → Error
timed_out Error.builtin_timeout_error = usmp_timeout_error
timed_out e = e

-- `asyncio.wait_for`: a transport here is that of a handshake cut off by the timeout.
abbrev pub wait_for : {T : Type 0} → Option T → Result SessionInfo × T → Result SessionInfo × T
wait_for (some t) outcome = (err builtin_timeout_error, t)
wait_for none outcome = outcome

abbrev pub session_or_error : {T : Type 0} → Option (Session T) → Result (Session T)
session_or_error none = err not_connected_error
session_or_error (some s) = ok s

-- `_ensure_connected`.
unfoldable pub ensure_connected : {T : Type 0} → Client T → Result (Session T)
ensure_connected c = session_or_error c.session

module _ (P : Primitives) {T : Type 0} (tr : Transport T) where
  -- After the handshake.
  abbrev pub after_handshake : ℕ → Result SessionInfo × T → Client T → Result (Unit {0}) × Client T
  after_handshake now (ok info, t) c =
      (ok tt, record c { session = some (new_session info now t); has_transport = true })
  after_handshake now (err e, t) c =
      (err (timed_out e), record c { has_transport = false; closed = tr.close t ∷ c.closed })

  abbrev pub connect_over :
      ℕ
      → Bytes
      → Option T
      → Result Frame
      → Result Frame
      → Result Frame
      → Result T
      → Client T
      → Result (Unit {0}) × Client T
  connect_over now priv_c cut read1 read2 read3 (err e) c = (err e, c)
  connect_over now priv_c cut read1 read2 read3 (ok t) c =
      after_handshake now
        (wait_for cut (client_handshake P tr c.psk c.device_id priv_c read1 read2 read3 t)) c

  -- `connect`.
  unfoldable pub connect :
      ℕ
      → Bytes
      → Option T
      → Result Frame
      → Result Frame
      → Result Frame
      → Result T
      → Client T
      → Result (Unit {0}) × Client T
  connect now priv_c cut read1 read2 read3 opened c =
      connect_over now priv_c cut read1 read2 read3 opened c

  -- A call of the session, and the client that holds it afterwards.
  abbrev pub on_session :
      {A : Type 0}
      → (Session T → Option (Result A) × Session T)
      → Result (Session T)
      → Client T
      → Option (Result A) × Client T
  on_session call (err e) c = (some (err e), c)
  on_session call (ok s) c = let (result, s') = call s in (result, record c { session = some s' })

  abbrev pub sending :
      Bytes
      → Option (Result (Unit {0}) × Session T)
      → Session T
      → Option (Result (Unit {0})) × Session T
  sending bytes none s = (none, s)
  sending bytes (some (result, s')) s = (some result, s')

  -- `send`; `none` is a call that does not return, here and below.
  unfoldable pub send : Bytes → Client T → Option (Result (Unit {0})) × Client T
  send bytes c =
      on_session (λ s. sending bytes (session_send P tr bytes s) s) (ensure_connected c) c

  -- `recv`, which begins at `start`, with what arrives from then on.
  unfoldable pub recv : ℕ → List Arrival → Client T → Option (Result Bytes) × Client T
  recv start arrivals c =
      on_session (λ s. session_recv P tr none start arrivals s) (ensure_connected c) c

  -- `ping`.
  unfoldable pub ping : Client T → Option (Result (Unit {0})) × Client T
  ping c =
      on_session (λ s. let (result, s') = send_ping P tr s in (some result, s'))
        (ensure_connected c) c

  -- The end of a session that has said goodbye.
  abbrev pub disconnected : Client T → T → Client T
  disconnected c t = record c {
    session = none;
    has_transport = false;
    closed = if c.has_transport then tr.close t ∷ c.closed else c.closed;
  }

  abbrev pub leave : Option (Session T) → Client T → Result (Unit {0}) × Client T
  leave none c = (ok tt, record c { has_transport = false })
  leave (some s) c = let (result, s') = bye P tr s in (result, disconnected c s'.transport)

  -- `disconnect`.
  unfoldable pub disconnect : Client T → Result (Unit {0}) × Client T
  disconnect c = leave c.session c
