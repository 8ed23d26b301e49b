-- ===== src/Tests/Clients.antt =====
-- The theorems on the client at concrete inputs.
use usmp.Prelude.{◌≡◌, refl, true, false, none, some, List, [], ◌∷◌, replicate}
use usmp.Errors.{ok, err, handshake_error, usmp_timeout_error}
use usmp.Session.{Session, bye}
use usmp.Session.Delivery.Frame.{Sent, outbox}
use usmp.Client.{Client, connect, disconnect}
use usmp.Client.Lifecycle.{IsUnconnected, outcome, connect_fails, disconnect_closes}
use usmp.Tests.{toy, client_info, session_of}

abbrev idle : Client (List Sent)
idle = record {
  psk = replicate 16 1;
  device_id = replicate 6 2;
  session = none;
  has_transport = false;
  closed = [];
}

abbrev connected : Client (List Sent)
connected = record idle { session = some (session_of client_info []); has_transport = true }

disconnect_closes_example :
    IsUnconnected toy outbox (disconnect toy outbox connected).1
    × ((s : Session (List Sent))
        → connected.session ≡ some s
        → connected.has_transport ≡ true
        → (disconnect toy outbox connected).1.closed
          ≡ outbox.close (bye toy outbox s).1.transport ∷ [])
disconnect_closes_example = disconnect_closes toy outbox connected

-- A server that answers the HELLO with nothing in time.
timed_out_connect :
    (connect toy outbox 9
      (8 ∷ [])
      (some [])
      (err handshake_error)
      (err handshake_error)
      (err handshake_error)
      (ok [])
      idle).0
    ≡ err usmp_timeout_error
unfolding connect
timed_out_connect = refl

connect_fails_example :
    IsUnconnected toy outbox
      (connect toy outbox 9
        (8 ∷ [])
        (some [])
        (err handshake_error)
        (err handshake_error)
        (err handshake_error)
        (ok [])
        idle).1
    × ((t : List Sent)
        → ok [] ≡ ok t
        → (connect toy outbox 9
            (8 ∷ [])
            (some [])
            (err handshake_error)
            (err handshake_error)
            (err handshake_error)
            (ok [])
            idle).1.closed
          ≡ outbox.close
              (outcome toy outbox 9
                (8 ∷ [])
                (some [])
                (err handshake_error)
                (err handshake_error)
                (err handshake_error)
                idle
                usmp_timeout_error
                refl
                t).1
            ∷ [])
connect_fails_example =
    connect_fails toy outbox 9 (8 ∷ []) (some []) (err handshake_error) (err handshake_error)
      (err handshake_error) idle usmp_timeout_error refl (ok []) timed_out_connect
