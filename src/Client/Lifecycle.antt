-- ===== src/Client/Lifecycle.antt =====
-- What a client without a session does, and how it comes to have none.
use usmp.Prelude.{ℕ, ◌≡◌, refl, true, false, Option, none, some, List, ◌∷◌, Bytes}
use usmp.Errors.{Error, Result, ok, err, not_connected_error}
use usmp.Types.{SessionInfo, Frame}
use usmp.Crypto.Backend.{Primitives}
use usmp.Transport.{Transport}
use usmp.Session.{Session, bye}
use usmp.Session.Receive.{Arrival}
use usmp.Handshake.{client_handshake}
use usmp.Client.{
  Client, wait_for, ensure_connected, after_handshake, connect, leave, send, recv, ping, disconnect,
}

module _ (P : Primitives) {T : Type 0} (tr : Transport T) where
  -- `send`, `recv` and `ping` raise `NotConnectedError` and change nothing, and `disconnect` returns,
  -- closes nothing and only makes sure that no transport is kept.
  pub record IsUnconnected (c : Client T) : Type 0 where
    pub sends : (bytes : Bytes) → send P tr bytes c ≡ (some (err not_connected_error), c)
    pub receives :
        (start : ℕ) (arrivals : List Arrival)
        → recv P tr start arrivals c ≡ (some (err not_connected_error), c)
    pub pings : ping P tr c ≡ (some (err not_connected_error), c)
    pub disconnects : disconnect P tr c ≡ (ok tt, record c { has_transport = false })

  unconnected : (c : Client T) → c.session ≡ none → IsUnconnected c
  unfolding send recv ping disconnect ensure_connected
  unconnected c h = record {
    sends = λ bytes. rw h refl;
    receives = λ start arrivals. rw h refl;
    pings = rw h refl;
    disconnects = rw h refl;
  }

  leave_session :
      (o : Option (Session T)) (c : Client T) → c.session ≡ o → (leave P tr o c).1.session ≡ none
  leave_session none c h = h
  leave_session (some s) c h = refl

  -- After `disconnect`, however the farewell ends, `send`, `recv` and `ping` raise
  -- `NotConnectedError` and change nothing, and a further `disconnect` returns and closes nothing;
  -- if there was a session and its transport, that transport is closed.
  pub disconnect_closes :
      (c : Client T)
      → IsUnconnected (disconnect P tr c).1
        × ((s : Session T)
            → c.session ≡ some s
            → c.has_transport ≡ true
            → (disconnect P tr c).1.closed ≡ tr.close (bye P tr s).1.transport ∷ c.closed)
  unfolding disconnect
  disconnect_closes c = (
    unconnected (leave P tr c.session c).1 (leave_session c.session c refl),
    λ s h held. rw (h, held) refl,
  )

  after_session :
      (now : ℕ) (outcome : Result SessionInfo × T) (c : Client T) (e : Error)
      → c.session ≡ none
      → (after_handshake P tr now outcome c).0 ≡ err e
      → ((after_handshake P tr now outcome c).1.session ≡ none)
        × ((after_handshake P tr now outcome c).1.closed ≡ tr.close outcome.1 ∷ c.closed)
  after_session now (ok info, t) c e h failed = cc
  after_session now (err e', t) c e h failed = (h, refl)

  module _ (now : ℕ) (priv_c : Bytes) (cut : Option T) (read1 read2 read3 : Result Frame)
      (c : Client T) (e : Error) (absent : c.session ≡ none) where
    -- How the handshake over a transport ends.
    abbrev pub outcome : T → Result SessionInfo × T
    outcome t = wait_for cut (client_handshake P tr c.psk c.device_id priv_c read1 read2 read3 t)

    -- When `connect` of a client without a session raises, then `send`, `recv` and `ping` raise
    -- `NotConnectedError` and change nothing, `disconnect` returns and closes nothing, and the
    -- transport that `connect` had opened, if it had, is closed.
    pub connect_fails :
        (opened : Result T)
        → (connect P tr now priv_c cut read1 read2 read3 opened c).0 ≡ err e
        → IsUnconnected (connect P tr now priv_c cut read1 read2 read3 opened c).1
          × ((t : T)
              → opened ≡ ok t
              → (connect P tr now priv_c cut read1 read2 read3 opened c).1.closed
                ≡ tr.close (outcome t).1 ∷ c.closed)
    unfolding connect
    connect_fails (err e') failed = (unconnected c absent, λ t h. cc)
    connect_fails (ok t) failed =
        let (gone, closed) = after_session now (outcome t) c e absent failed in
        (
          unconnected (after_handshake P tr now (outcome t) c).1 gone,
          λ t' h. let same : t ≡ t' = cc in rw (← same) closed,
        )
