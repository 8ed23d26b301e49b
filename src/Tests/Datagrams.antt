-- ===== src/Tests/Datagrams.antt =====
-- The theorems on the UDP stream at concrete inputs.
use usmp.Prelude.{
  ◌≤◌, ◌≡◌, refl, true, false, none, some, [], ◌∷◌, ◌++◌, if◌then◌else◌, Bytes, length, replicate,
  arith,
}
use usmp.Errors.{ok, err, os_error}
use usmp.Types.{data_packet}
use usmp.Frame.{read_frame}
use usmp.Frame.Wire.{frame_bytes}
use usmp.Frame.RoundTrip.{sent_frame}
use usmp.Udp.{
  UdpStream, feed_packet, feed_all, max_read_buffer, set_session_keys, sendto, with_mac, is_too_old,
  readexactly,
}
use usmp.Udp.Feed.{utack_header, feed_all_bound}
use usmp.Udp.Frames.{feed_packet_stale, read_frame-feed_packet}
use usmp.Udp.Exchange.{any_attempt, write_frame_exact}
use usmp.Udp.Send.{write_frame}
use usmp.Tests.{toy}

-- A stream that has confirmed frame 100 and waits for the acknowledgement of frame 7.
abbrev stream : UdpStream
stream = record {
  is_server = true;
  read_buffer = [];
  last_rx_seq = some 100;
  last_rx_type = some 3;
  pending_send_data = none;
  pending_send_seq = some 7;
  pending_send_type = some 5;
  ack_received = false;
  closed = false;
  tx_key = some (replicate 32 1);
  rx_key = some (replicate 32 2);
  sent = [];
  arriving = [];
}

abbrev hi : Bytes
hi = 104 ∷ 105 ∷ []

feed_all_bound_example :
    length (feed_all toy (hi ∷ frame_bytes data_packet 90 hi ∷ []) stream).read_buffer
    ≤ max_read_buffer
feed_all_bound_example =
    feed_all_bound toy (hi ∷ frame_bytes data_packet 90 hi ∷ []) stream (omega arith)

feed_packet_stale_example :
    let rekeyed = set_session_keys (replicate 32 5) (replicate 32 6) stream in
    feed_packet toy (frame_bytes data_packet 0 hi) rekeyed
    ≡ (ok tt, sendto (with_mac toy 5 (some (replicate 32 6)) (utack_header 5 0)) rekeyed)
feed_packet_stale_example =
    feed_packet_stale toy data_packet 0 100 hi (replicate 32 5) (replicate 32 6) stream
      (omega arith) (omega arith) refl refl refl (omega arith)

stream_fresh : is_too_old stream.last_rx_seq 101 ≡ false
unfolding is_too_old
stream_fresh = refl

read_frame-feed_packet_example :
    let acked = sendto (with_mac toy 5 stream.rx_key (utack_header 5 101)) stream in
    let (result, fed) =
      feed_packet toy (frame_bytes data_packet 101 hi) (record stream { read_buffer = [] }) in
    (result ≡ ok tt)
    × (read_frame readexactly true fed
        ≡ some (ok (sent_frame data_packet 101 hi), record acked { read_buffer = [] }))
read_frame-feed_packet_example =
    read_frame-feed_packet toy data_packet 101 hi true stream (omega arith) (omega arith) refl refl
      stream_fresh

-- The acknowledgement of frame 7.
abbrev utack : Bytes
utack = utack_header 5 7 ++ replicate 8 5

-- A stream whose acknowledgement arrives during the first attempt.
abbrev sending : UdpStream
sending = record stream { arriving = (utack ∷ []) ∷ [] }

write_frame_exact_example :
    (write_frame toy data_packet hi 7 sending).0
    ≡ (if any_attempt toy sending.tx_key 5 7 5 sending.arriving then ok tt else err os_error)
write_frame_exact_example =
    write_frame_exact toy data_packet hi 7 sending (omega arith) (omega arith) (omega arith)
      (omega arith) refl
