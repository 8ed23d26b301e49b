-- ===== src/Udp/Frames.antt =====
-- What `feed_packet` does with the frames of `encode_frame`.
use usmp.Prelude.{
  ℕ, ◌+◌, ◌^◌, ltb_of_lt, ltb_of_le, leb_of_le, ◌≤◌, ◌<◌, ◌≡◌, ◌∙◌, if_false, refl, Bool, true,
  false, Option, some, Bytes, length, take-append, drop-append, length-append, if◌then◌else◌, arith,
  [], ◌∷◌, ◌++◌,
}
use usmp.Errors.{ok}
use usmp.Types.{PacketType, type_int, usmp_max_payload}
use usmp.Types.Laws.{type_int-lt}
use usmp.Struct.Laws.{u16_digits, u32_digits}
use usmp.Frame.{read_frame, read_rest, read_payload}
use usmp.Frame.Wire.{header_bytes, sum_bytes, frame_crc, frame_bytes}
use usmp.Frame.RoundTrip.{sent_frame, decode-frame_bytes}
use mathlib.Core.List.{append-nil}
use usmp.Crypto.Backend.{Primitives}
use usmp.Udp.{
  UdpStream, max_read_buffer, build_utack, buffer_frame, feed_frame, feed_packet, sendto, with_mac,
  is_well_sized, is_handshake_type, is_too_old, is_duplicate, is_utack, set_session_keys,
  readexactly,
}
use usmp.Udp.Feed.{utack_header, build_utack-eq}

module _ (P : Primitives) (t : PacketType) (seq : ℕ) (payload : Bytes) (hs : seq < 2 ^ 32)
    (hl : length payload ≤ usmp_max_payload) where
  abbrev pub datagram : Bytes
  datagram = frame_bytes t seq payload

  datagram_well_sized : is_well_sized datagram ≡ true
  unfolding is_well_sized
  datagram_well_sized = rw (u16_digits (length payload)) (ground arith)

  -- The acknowledgement that the stream sends.
  abbrev pub utack : UdpStream → Bytes
  utack s = with_mac P (type_int t) s.rx_key (utack_header (type_int t) seq)

  datagram_no_utack : is_utack datagram ≡ false
  datagram_no_utack = ground arith

  built :
      (key : Option Bytes)
      → build_utack P (type_int t) seq key
        ≡ ok (with_mac P (type_int t) key (utack_header (type_int t) seq))
  built key = build_utack-eq P (type_int t) seq key (type_int-lt t) hs

  -- An open stream takes the datagram as a frame.
  feed_packet-frame :
      (s : UdpStream) → s.closed ≡ false → feed_packet P datagram s ≡ feed_frame P datagram s
  unfolding feed_packet
  feed_packet-frame s unclosed =
      if_false s.closed _ _ unclosed ∙ if_false (is_utack datagram) _ _ datagram_no_utack

  feed_frame-first :
      (s : UdpStream)
      → is_handshake_type (type_int t) ≡ true
      → is_duplicate s.is_server s.last_rx_type (type_int t) ≡ false
      → feed_frame P datagram s
        ≡ buffer_frame P datagram (record s { last_rx_type = some (type_int t) })
  unfolding feed_frame
  feed_frame-first s first fresh = rw (datagram_well_sized, first, fresh) refl

  feed_frame-session :
      (s : UdpStream)
      → is_handshake_type (type_int t) ≡ false
      → feed_frame P datagram s ≡ (
          if is_too_old s.last_rx_seq seq
          then (ok tt, sendto (utack s) s)
          else buffer_frame P datagram s)
  unfolding feed_frame
  feed_frame-session s session =
      rw (datagram_well_sized, u32_digits seq, session, built s.rx_key) refl

  buffer_frame-room :
      (s : UdpStream)
      → length s.read_buffer + length datagram ≤ max_read_buffer
      → buffer_frame P datagram s ≡ (
        ok tt,
        record s { read_buffer = s.read_buffer ++ datagram; sent = s.sent ++ utack s ∷ [] },
      )
  unfolding buffer_frame
  buffer_frame-room s room =
      rw
        (
          ltb_of_le max_read_buffer (length s.read_buffer + length datagram) room,
          u32_digits seq,
          built s.rx_key,
        )
        refl

-- On an open UDP stream, right after new session keys have been installed, a session frame in range
-- that is 64 or more behind the highest confirmed sequence number is acknowledged and dropped.
pub feed_packet_stale :
    (P : Primitives) (t : PacketType) (seq last : ℕ) (payload tx rx : Bytes) (s : UdpStream)
    → seq < 2 ^ 32
    → length payload ≤ usmp_max_payload
    → is_handshake_type (type_int t) ≡ false
    → s.closed ≡ false
    → s.last_rx_seq ≡ some last
    → seq + 64 ≤ last
    → let rekeyed = set_session_keys tx rx s in
      feed_packet P (frame_bytes t seq payload) rekeyed
      ≡ (ok tt, sendto (with_mac P (type_int t) (some rx) (utack_header (type_int t) seq)) rekeyed)
unfolding set_session_keys is_too_old
feed_packet_stale P t seq last payload tx rx s hs hl session unclosed confirmed old =
    let rekeyed : UdpStream = record s { tx_key = some tx; rx_key = some rx } in
    feed_packet-frame P t seq payload hs hl rekeyed unclosed
    ∙ feed_frame-session P t seq payload hs hl rekeyed session
    ∙ rw (confirmed, leb_of_le (seq + 64) last old) refl

-- The bytes at the front of the buffer are read.
readexactly-front :
    (n : ℕ) (first rest : Bytes) (s : UdpStream)
    → length first ≡ n
    → readexactly n (record s { read_buffer = first ++ rest })
      ≡ some (ok first, record s { read_buffer = rest })
unfolding readexactly
readexactly-front n first rest s h = rw (
  length-append first rest,
  ltb_of_le (length first + length rest) n (omega arith),
  take-append first rest n h,
  drop-append first rest n h,
)

read_payload-front :
    (payload : Bytes) (s : UdpStream)
    → read_payload readexactly (length payload) (record s { read_buffer = payload })
      ≡ some (ok payload, record s { read_buffer = [] })
unfolding read_payload
read_payload-front [] s = refl
read_payload-front (x ∷ xs) s =
    rw (ltb_of_lt 0 (length (x ∷ xs)) (omega arith))
      (rw append-nil at (readexactly-front (length (x ∷ xs)) (x ∷ xs) [] s refl))

module _ (t : PacketType) (seq : ℕ) (payload : Bytes) (verify : Bool) (s : UdpStream)
    (hs : seq < 2 ^ 32) (hl : length payload ≤ usmp_max_payload) where
  abbrev head : Bytes
  head = header_bytes t seq (length payload) ++ sum_bytes (frame_crc t seq payload)

  read_rest-frame :
      read_rest readexactly head verify (record s { read_buffer = payload })
      ≡ some (ok (sent_frame t seq payload), record s { read_buffer = [] })
  unfolding read_rest
  read_rest-frame = rw (
    u16_digits (length payload),
    ltb_of_le usmp_max_payload (length payload) hl,
    read_payload-front payload s,
    rw append-nil at (decode-frame_bytes t seq payload hs hl [] verify),
  )

  read_frame-buffer :
      read_frame readexactly verify (record s { read_buffer = frame_bytes t seq payload })
      ≡ some (ok (sent_frame t seq payload), record s { read_buffer = [] })
  unfolding read_frame
  read_frame-buffer = rw (readexactly-front 12 head payload s refl, read_frame, read_rest-frame)

-- A session frame in range that is not stale, fed to an open UDP stream with nothing unread, is
-- acknowledged, and `read_frame` then returns it and leaves nothing unread.
pub read_frame-feed_packet :
    (P : Primitives) (t : PacketType) (seq : ℕ) (payload : Bytes) (verify : Bool) (s : UdpStream)
    → seq < 2 ^ 32
    → length payload ≤ usmp_max_payload
    → is_handshake_type (type_int t) ≡ false
    → s.closed ≡ false
    → is_too_old s.last_rx_seq seq ≡ false
    → let acked = sendto (with_mac P (type_int t) s.rx_key (utack_header (type_int t) seq)) s in
      let (result, fed) =
        feed_packet P (frame_bytes t seq payload) (record s { read_buffer = [] }) in
      (result ≡ ok tt)
      × (read_frame readexactly verify fed
          ≡ some (ok (sent_frame t seq payload), record acked { read_buffer = [] }))
read_frame-feed_packet P t seq payload verify s hs hl session unclosed fresh =
    let waiting : UdpStream = record s { read_buffer = [] } in
    let fed : feed_packet P (frame_bytes t seq payload) waiting ≡ (
      ok tt,
      record waiting {
        read_buffer = frame_bytes t seq payload;
        sent = s.sent ++ with_mac P (type_int t) s.rx_key (utack_header (type_int t) seq) ∷ [];
      },
    ) =
      feed_packet-frame P t seq payload hs hl waiting unclosed
      ∙ feed_frame-session P t seq payload hs hl waiting session
      ∙ if_false (is_too_old s.last_rx_seq seq) _ _ fresh
      ∙ buffer_frame-room P t seq payload hs hl waiting (omega arith) in
    rw fed (
      refl,
      read_frame-buffer t seq payload verify
          (sendto (with_mac P (type_int t) s.rx_key (utack_header (type_int t) seq)) s) hs hl,
    )

-- The first frame of a handshake on an open stream with nothing unread is taken in the same way.
pub read_frame-feed_first :
    (P : Primitives) (t : PacketType) (seq : ℕ) (payload : Bytes) (verify : Bool) (s : UdpStream)
    → seq < 2 ^ 32
    → length payload ≤ usmp_max_payload
    → is_handshake_type (type_int t) ≡ true
    → s.closed ≡ false
    → is_duplicate s.is_server s.last_rx_type (type_int t) ≡ false
    → let (result, fed) =
        feed_packet P (frame_bytes t seq payload) (record s { read_buffer = [] }) in
      (result ≡ ok tt)
      × (rest : UdpStream) × (read_frame readexactly verify fed
          ≡ some (ok (sent_frame t seq payload), rest))
read_frame-feed_first P t seq payload verify s hs hl first unclosed fresh =
    let waiting : UdpStream = record s { read_buffer = [] } in
    let typed : UdpStream = record waiting { last_rx_type = some (type_int t) } in
    let fed : feed_packet P (frame_bytes t seq payload) waiting ≡ (
      ok tt,
      record typed {
        read_buffer = frame_bytes t seq payload;
        sent = s.sent ++ with_mac P (type_int t) s.rx_key (utack_header (type_int t) seq) ∷ [];
      },
    ) =
      feed_packet-frame P t seq payload hs hl waiting unclosed
      ∙ feed_frame-first P t seq payload hs hl waiting first fresh
      ∙ buffer_frame-room P t seq payload hs hl typed (omega arith) in
    rw fed (
      refl,
      _,
      read_frame-buffer t seq payload verify
          (sendto (with_mac P (type_int t) s.rx_key (utack_header (type_int t) seq)) typed) hs hl,
    )
