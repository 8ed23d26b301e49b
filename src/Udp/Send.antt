-- ===== src/Udp/Send.antt =====
-- `drain` and `write_frame` of sdk/python/src/usmp/transport/udp.py: stop-and-wait, with five attempts.
use usmp.Prelude.{ℕ, zero, suc, false, Option, none, some, List, [], ◌∷◌, Bytes, if◌then◌else◌}
use usmp.Errors.{Result, ok, err, os_error}
use usmp.Types.{PacketType, usmp_version}
use usmp.Frame.{encode_frame}
use usmp.Crypto.Backend.{Primitives}
use usmp.Transport.{Transport}
use usmp.Udp.{UdpStream, sendto, feed_all, set_session_keys, confirm_authenticated, close, write}

abbrev pub arriving_first : List (List Bytes) → List Bytes
arriving_first [] = []
arriving_first (x ∷ xs) = x

abbrev pub arriving_rest : List (List Bytes) → List (List Bytes)
arriving_rest [] = []
arriving_rest (x ∷ xs) = xs

module _ (P : Primitives) where
  -- One attempt: the data goes out, and what arrives before the time is up is fed to the stream.
  unfoldable pub attempt : Bytes → UdpStream → UdpStream
  attempt data_bytes s =
      feed_all P (arriving_first s.arriving)
        (sendto data_bytes (record s { arriving = arriving_rest s.arriving }))

  -- `for attempt in range(n)`, and the `raise` after it.
  unfoldable pub attempts : ℕ → Bytes → UdpStream → Result (Unit {0}) × UdpStream
  attempts zero data_bytes s = (err os_error, s)
  attempts (suc n) data_bytes s =
      let rest = attempts n data_bytes (attempt data_bytes s) in
      if (attempt data_bytes s).ack_received then (ok tt, attempt data_bytes s) else rest

  abbrev pub drain_data : Option ℕ → Bytes → UdpStream → Result (Unit {0}) × UdpStream
  drain_data none data_bytes s = (ok tt, sendto data_bytes s)
  drain_data (some seq) data_bytes s = attempts 5 data_bytes (record s { ack_received = false })

  abbrev pub drain_pending : Option Bytes → UdpStream → Result (Unit {0}) × UdpStream
  drain_pending none s = (ok tt, s)
  drain_pending (some data_bytes) s =
      drain_data s.pending_send_seq data_bytes (record s { pending_send_data = none })

  unfoldable pub drain : UdpStream → Result (Unit {0}) × UdpStream
  drain s = drain_pending s.pending_send_data s

  abbrev pub after_write : Result (Unit {0}) × UdpStream → Result (Unit {0}) × UdpStream
  after_write (ok u, s) = drain s
  after_write (err e, s) = (err e, s)

  abbrev pub write_encoded : Result Bytes → UdpStream → Result (Unit {0}) × UdpStream
  write_encoded (ok encoded) s = after_write (write encoded s)
  write_encoded (err e) s = (err e, s)

  unfoldable pub write_frame : PacketType → Bytes → ℕ → UdpStream → Result (Unit {0}) × UdpStream
  write_frame type payload seq s = write_encoded (encode_frame type payload seq usmp_version) s

  -- The stream as the transport of a session.
  abbrev pub udp_transport : Transport UdpStream
  udp_transport = record {
    is_reliable = false;
    write_frame = write_frame;
    set_session_keys = set_session_keys;
    confirm_authenticated = confirm_authenticated;
    close = close;
  }
