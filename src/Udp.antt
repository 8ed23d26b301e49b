-- ===== src/Udp.antt =====
-- `UDPStream` of sdk/python/src/usmp/transport/udp.py. The round-trip estimate, which only sets how
-- long an attempt waits for its acknowledgement, is left out.
pub mod Send
pub mod Feed
pub mod Frames
pub mod Acks
pub mod Delivery
pub mod Exchange
pub mod Listener
use usmp.Prelude.{
  ℕ, zero, suc, ◌+◌, Bool, true, false, not, ◌&&◌, ◌||◌, Option, none, some, List, [], ◌∷◌, ◌++◌,
  Bytes, bytes_eq, length, take, drop, get_or, ltb, leb, ◌==◌, if◌then◌else◌,
}
use usmp.Errors.{Result, ok, err, ◌>>=◌, raise_if, value_error, os_error, incomplete_read_error}
use usmp.Types.{PacketType, usmp_header_size, usmp_max_payload, usmp_version}
use usmp.Struct.{pack_u32, unpack_u16, unpack_u32}
use usmp.Frame.{Reading, encode_frame}
use usmp.Crypto.Backend.{Primitives}
use usmp.Transport.{Transport}

abbrev pub utack_magic : Bytes
utack_magic = 0xac ∷ 0xac ∷ []

abbrev pub utack_mac_len : ℕ
utack_mac_len = 8

abbrev pub utack_header_len : ℕ
utack_header_len = 7

abbrev pub max_read_buffer : ℕ
max_read_buffer = 4096

-- The stream's fields; `none` stands for -1 and for `None`. `sent` is what it has handed to the socket,
-- and `arriving` what the network brings during each attempt still to come of `drain`.
pub record UdpStream : Type 0 where
  pub is_server : Bool
  pub read_buffer : Bytes
  pub last_rx_seq : Option ℕ
  pub last_rx_type : Option ℕ
  pub pending_send_data : Option Bytes
  pub pending_send_seq : Option ℕ
  pub pending_send_type : Option ℕ
  pub ack_received : Bool
  pub closed : Bool
  pub tx_key : Option Bytes
  pub rx_key : Option Bytes
  pub sent : List Bytes
  pub arriving : List (List Bytes)

-- A pending number, compared with one received.
abbrev pub is_pending : ℕ → Option ℕ → Bool
is_pending n none = false
is_pending n (some m) = n == m

-- `bytes([n])`.
abbrev pub one_byte : ℕ → Result Bytes
one_byte n = if ltb n 256 then ok (n ∷ []) else err value_error

-- `self._transport.sendto(data, self._remote_addr)`.
abbrev pub sendto : Bytes → UdpStream → UdpStream
sendto data_bytes s = record s { sent = s.sent ++ data_bytes ∷ [] }

abbrev pub is_utack : Bytes → Bool
is_utack data_bytes =
    leb utack_header_len (length data_bytes) && bytes_eq (take 2 data_bytes) utack_magic

-- The tests on a frame's size and magic number.
unfoldable pub is_well_sized : Bytes → Bool
is_well_sized data_bytes =
    leb usmp_header_size (length data_bytes)
    && ((unpack_u16 data_bytes 0 == 0xabcd)
        && (leb (unpack_u16 data_bytes 8) usmp_max_payload
            && (length data_bytes == usmp_header_size + unpack_u16 data_bytes 8)))

-- `type_val < 5 or type_val == 0x0A`.
abbrev pub is_handshake_type : ℕ → Bool
is_handshake_type type = ltb type 5 || (type == 0x0a)

unfoldable pub is_duplicate : Bool → Option ℕ → ℕ → Bool
is_duplicate is_server none type = false
is_duplicate is_server (some last) type =
    (type == last)
    || ((type == 0x0a) || (((type == 2) && (last == 4)) || (is_server && leb type last)))

-- `seq_val <= self._last_rx_seq - 64`, with the 64 on the other side.
unfoldable pub is_too_old : Option ℕ → ℕ → Bool
is_too_old none seq = false
is_too_old (some last) seq = leb (seq + 64) last

module _ (P : Primitives) where
  unfoldable pub utack_mac : Bytes → Bytes → Bytes
  utack_mac key header = take utack_mac_len (P.hmac_sha256 key header)

  abbrev pub with_mac : ℕ → Option Bytes → Bytes → Bytes
  with_mac type none header = header
  with_mac type (some key) header = if leb 5 type then header ++ utack_mac key header else header

  unfoldable pub build_utack : ℕ → ℕ → Option Bytes → Result Bytes
  build_utack type seq rx_key = do
    t ← one_byte type
    digits ← pack_u32 seq
    ok (with_mac type rx_key (utack_magic ++ (t ++ digits)))

  -- The test on the MAC of an acknowledgement.
  unfoldable pub is_authentic : Bytes → Option Bytes → Bool
  is_authentic data_bytes none = false
  is_authentic data_bytes (some key) =
      leb (utack_header_len + utack_mac_len) (length data_bytes)
      && bytes_eq (utack_mac key (take utack_header_len data_bytes))
          (take utack_mac_len (drop utack_header_len data_bytes))

  unfoldable pub feed_utack : Bytes → UdpStream → UdpStream
  feed_utack data_bytes s =
      let type = get_or data_bytes 2 0 in
      let seq = unpack_u32 data_bytes 3 in
      if leb 5 type && not (is_authentic data_bytes s.tx_key)
      then s
      else if is_pending seq s.pending_send_seq && is_pending type s.pending_send_type
      then (record s { ack_received = true })
      else s

  abbrev pub send_built : Result Bytes → UdpStream → Result (Unit {0}) × UdpStream
  send_built (ok utack) s = (ok tt, sendto utack s)
  send_built (err e) s = (err e, s)

  abbrev pub send_utack : ℕ → ℕ → UdpStream → Result (Unit {0}) × UdpStream
  send_utack type seq s = send_built (build_utack type seq s.rx_key) s

  abbrev pub extend_buffer : Bytes → Result (Unit {0}) × UdpStream → Result (Unit {0}) × UdpStream
  extend_buffer data_bytes (ok u, s) =
      (ok tt, record s { read_buffer = s.read_buffer ++ data_bytes })
  extend_buffer data_bytes (err e, s) = (err e, s)

  -- From the test on the buffer's size on.
  unfoldable pub buffer_frame : Bytes → UdpStream → Result (Unit {0}) × UdpStream
  buffer_frame data_bytes s =
      if ltb max_read_buffer (length s.read_buffer + length data_bytes)
      then (ok tt, s)
      else extend_buffer data_bytes (send_utack (get_or data_bytes 3 0) (unpack_u32 data_bytes 4) s)

  unfoldable pub feed_frame : Bytes → UdpStream → Result (Unit {0}) × UdpStream
  feed_frame data_bytes s =
      let type = get_or data_bytes 3 0 in
      let seq = unpack_u32 data_bytes 4 in
      if not (is_well_sized data_bytes)
      then (ok tt, s)
      else if is_handshake_type type
      then (if is_duplicate s.is_server s.last_rx_type type
          then send_utack type seq s
          else buffer_frame data_bytes (record s { last_rx_type = some type }))
      else if is_too_old s.last_rx_seq seq
      then send_utack type seq s
      else buffer_frame data_bytes s

  unfoldable pub feed_packet : Bytes → UdpStream → Result (Unit {0}) × UdpStream
  feed_packet data_bytes s =
      if s.closed
      then (ok tt, s)
      else if is_utack data_bytes
      then (ok tt, feed_utack data_bytes s)
      else feed_frame data_bytes s

  -- The datagrams that arrive while a coroutine of the stream waits.
  unfoldable pub feed_all : List Bytes → UdpStream → UdpStream
  feed_all [] s = s
  feed_all (x ∷ xs) s = feed_all xs (feed_packet x s).1

-- The later of the two sequence numbers.
unfoldable pub later_seq : Option ℕ → ℕ → ℕ
later_seq none seq = seq
later_seq (some last) seq = if ltb last seq then seq else last

unfoldable pub confirm_authenticated : ℕ → UdpStream → UdpStream
confirm_authenticated seq s = record s { last_rx_seq = some (later_seq s.last_rx_seq seq) }

unfoldable pub set_session_keys : Bytes → Bytes → UdpStream → UdpStream
set_session_keys tx_key rx_key s = record s { tx_key = some tx_key; rx_key = some rx_key }

unfoldable pub close : UdpStream → UdpStream
close s = record s { closed = true }

unfoldable pub readexactly : ℕ → Reading UdpStream Bytes
readexactly n s =
    if ltb (length s.read_buffer) n
    then (if s.closed then some (err incomplete_read_error, s) else none)
    else some (ok (take n s.read_buffer), record s { read_buffer = drop n s.read_buffer })

unfoldable pub write : Bytes → UdpStream → Result (Unit {0}) × UdpStream
write data_bytes s =
    if s.closed
    then (err os_error, s)
    else if leb 8 (length data_bytes)
    then (
      ok tt,
      record s {
        pending_send_data = some data_bytes;
        pending_send_type = some (get_or data_bytes 3 0);
        pending_send_seq = some (unpack_u32 data_bytes 4);
      },
    )
    else (
      ok tt,
      record s {
        pending_send_data = some data_bytes;
        pending_send_type = none;
        pending_send_seq = none;
      },
    )
