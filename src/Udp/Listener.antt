-- ===== src/Udp/Listener.antt =====
-- `UDPListener._handle_udp_datagram` of sdk/python/src/usmp/transport/udp.py, with the dictionaries of
-- _server.py that it shares. A stream is named by its place in the list of the streams ever made, and
-- the tasks of `_handle_udp_client` are the addresses and streams that they serve.
pub mod Addresses
pub mod Cookies
pub mod Decimal
pub mod Start
pub mod Texts
pub mod Hello
use usmp.Prelude.{
  ℕ, zero, suc, ◌+◌, ◌*◌, ◌/◌, ◌%◌, ◌≡◌, Bool, true, false, not, ◌&&◌, ◌||◌, Option, none, some,
  List, [], ◌∷◌, ◌++◌, Bytes, bytes_eq, length, take, drop, get_or, ltb, leb, ◌==◌, if◌then◌else◌,
}
use usmp.Prelude.Dict.{bytes_key, get, put}
use usmp.Errors.{Result, ok, err, ◌>>=◌}
use usmp.Types.{PacketType, hello_retry}
use usmp.Struct.{pack_u32, unpack_u32}
use usmp.Frame.{encode_frame}
use usmp.Crypto.Backend.{Primitives}
use usmp.Handshake.Limiter.{Table, is_locked, second}
use usmp.Server.{Limits, Counts, value_of}
use usmp.Server.Cookie.{Buckets, allow_udp_cookie}
use usmp.Udp.{UdpStream, utack_magic, one_byte, is_utack, feed_packet, close}
use usmp.Udp.Listener.Decimal.{decimal}
use usmp.Udp.Listener.Addresses.{Addr, addr_key}

-- `UDPStream(transport, addr, is_server=True)`.
abbrev pub new_stream : UdpStream
new_stream = record {
  is_server = true;
  read_buffer = [];
  last_rx_seq = none;
  last_rx_type = none;
  pending_send_data = none;
  pending_send_seq = none;
  pending_send_type = none;
  ack_received = false;
  closed = false;
  tx_key = none;
  rx_key = none;
  sent = [];
  arriving = [];
}

-- The server's UDP state: the two dictionaries, the handshakes in progress, the streams, what the
-- listener itself has sent, the tasks before and after their handshake, and the two rate limiters.
pub record UdpServer : Type 0 where
  pub sessions : List (Addr × ℕ)
  pub handshakes : List (Addr × ℕ)
  pub in_progress : Counts
  pub streams : List UdpStream
  pub sent : List (Bytes × Addr)
  pub waiting : List (Addr × ℕ)
  pub serving : List (Addr × ℕ)
  pub failures : Table
  pub cookies : Buckets

-- `type_val`.
unfoldable pub packet_type : Bytes → Option ℕ
packet_type data_bytes =
    if is_utack data_bytes
    then some (get_or data_bytes 2 0)
    else if leb 12 (length data_bytes)
    then some (get_or data_bytes 3 0)
    else none

-- `type_val is not None and type_val < 5`.
abbrev pub is_handshake_packet : Option ℕ → Bool
is_handshake_packet none = false
is_handshake_packet (some type) = ltb type 5

-- `type_val != 0x01`, negated.
abbrev pub is_hello : Option ℕ → Bool
is_hello none = false
is_hello (some type) = type == 1

-- `int(time.time() // 30)`, of nanoseconds.
abbrev pub time_bucket : ℕ → ℕ
time_bucket wall = wall / (30 * second)

-- `str(time_bucket - 1)`.
abbrev pub text_before : ℕ → Bytes
text_before zero = 0x2d ∷ 0x31 ∷ []
text_before (suc n) = decimal n

-- `f"{addr[0]}:{addr[1]}:{...}".encode()`.
abbrev pub cookie_message : Addr → Bytes → Bytes
cookie_message addr text = addr.0 ++ 0x3a ∷ (decimal addr.1 ++ 0x3a ∷ text)

-- `transport.sendto(packet, addr)`, of a packet that may not be built.
abbrev pub sendto_addr : Result Bytes → Addr → UdpServer → Result (Unit {0}) × UdpServer
sendto_addr (ok packet) addr st = (ok tt, record st { sent = st.sent ++ (packet, addr) ∷ [] })
sendto_addr (err e) addr st = (err e, st)

abbrev pub then_sendto :
    Result (Unit {0}) × UdpServer → Result Bytes → Addr → Result (Unit {0}) × UdpServer
then_sendto (ok u, st) packet addr = sendto_addr packet addr st
then_sendto (err e, st) packet addr = (err e, st)

-- `UTACK_MAGIC + bytes([type_val]) + struct.pack("<I", seq_val)`.
abbrev pub plain_utack : ℕ → ℕ → Result Bytes
plain_utack type seq = do
  t ← one_byte type
  digits ← pack_u32 seq
  ok (utack_magic ++ (t ++ digits))

-- `self._udp_handshakes.get(addr) or self._udp_sessions.get(addr)`.
abbrev pub first_of : Option ℕ → Option ℕ → Option ℕ
first_of (some stream) other = some stream
first_of none other = other

-- `stream.close()`.
unfoldable pub close_at : ℕ → List UdpStream → List UdpStream
close_at n [] = []
close_at zero (s ∷ rest) = close s ∷ rest
close_at (suc n) (s ∷ rest) = s ∷ close_at n rest

-- `for stream in list(...values()): stream.close()`.
unfoldable pub close_all : List (Addr × ℕ) → List UdpStream → List UdpStream
close_all [] streams = streams
close_all ((addr, stream) ∷ rest) streams = close_all rest (close_at stream streams)

-- `stop`, up to the tasks that it then cancels.
unfoldable pub udp_stop : UdpServer → UdpServer
udp_stop st = record st {
  streams = close_all st.handshakes (close_all st.sessions st.streams);
  sessions = [];
  handshakes = [];
}

module _ (P : Primitives) where
  -- `stream.feed_packet(data)`.
  unfoldable pub feed_at : ℕ → Bytes → List UdpStream → Result (Unit {0}) × List UdpStream
  feed_at n data_bytes [] = (ok tt, [])
  feed_at zero data_bytes (s ∷ rest) =
      let (result, fed) = feed_packet P data_bytes s in (result, fed ∷ rest)
  feed_at (suc n) data_bytes (s ∷ rest) =
      let (result, fed) = feed_at n data_bytes rest in (result, s ∷ fed)

  unfoldable pub feed_stream : Option ℕ → Bytes → UdpServer → Result (Unit {0}) × UdpServer
  feed_stream none data_bytes st = (ok tt, st)
  feed_stream (some stream) data_bytes st =
      let (result, streams) = feed_at stream data_bytes st.streams in
      (result, record st { streams = streams })

  module _ (limits : Limits) (secret : Bytes) where
    -- `hmac.new(self._server._cookie_secret, msg, hashlib.sha256).digest()[:16]`.
    unfoldable pub cookie_for : Addr → Bytes → Bytes
    cookie_for addr text = take 16 (P.hmac_sha256 secret (cookie_message addr text))

    unfoldable pub send_retry : ℕ → Bytes → Addr → UdpServer → Result (Unit {0}) × UdpServer
    send_retry wall data_bytes addr st =
        let cookie = cookie_for addr (decimal (time_bucket wall)) in
        then_sendto
          (sendto_addr (plain_utack (get_or data_bytes 3 0) (unpack_u32 data_bytes 4)) addr st)
          (encode_frame hello_retry cookie 0 2) addr

    -- The branch for a HELLO of 50 bytes, which has no cookie.
    unfoldable pub issue_cookie : ℕ → ℕ → Bytes → Addr → UdpServer → Result (Unit {0}) × UdpServer
    issue_cookie now wall data_bytes addr st =
        let (allowed, cookies) = allow_udp_cookie addr.0 now st.cookies in
        let st' = record st { cookies = cookies } in
        if allowed then send_retry wall data_bytes addr st' else (ok tt, st')

    -- The two `hmac.compare_digest`.
    unfoldable pub is_valid_cookie : ℕ → Bytes → Addr → Bool
    is_valid_cookie wall cookie addr =
        bytes_eq cookie (cookie_for addr (decimal (time_bucket wall)))
        || bytes_eq cookie (cookie_for addr (text_before (time_bucket wall)))

    abbrev pub with_task : Addr → ℕ → Result (Unit {0}) × UdpServer → Result (Unit {0}) × UdpServer
    with_task addr stream (ok u, st) = (ok tt, record st { waiting = (addr, stream) ∷ st.waiting })
    with_task addr stream (err e, st) = (err e, st)

    -- From `self._server._udp_in_progress_handshakes[limiter_key] = in_progress + 1` on.
    abbrev pub started : Bytes → Addr → UdpServer → Result (Unit {0}) × UdpServer
    started data_bytes addr st =
        let (result, fed) = feed_packet P data_bytes new_stream in
        (
          result,
          record st {
            in_progress = put bytes_key addr.0 (value_of addr.0 st.in_progress + 1) st.in_progress;
            handshakes = put addr_key addr (length st.streams) st.handshakes;
            streams = st.streams ++ fed ∷ [];
          },
        )

    unfoldable pub start_handshake : Bytes → Addr → UdpServer → Result (Unit {0}) × UdpServer
    start_handshake data_bytes addr st =
        with_task addr (length st.streams) (started data_bytes addr st)

    -- The lockout and the two limits.
    unfoldable pub may_start : ℕ → Addr → UdpServer → Bool
    may_start now addr st =
        not (is_locked addr.0 now st.failures)
        && (not (leb 3 (value_of addr.0 st.in_progress))
            && not (leb (limits.max_connections * 2) (length st.handshakes)))

    -- A HELLO from an address without a handshake.
    unfoldable pub new_handshake : ℕ → ℕ → Bytes → Addr → UdpServer → Result (Unit {0}) × UdpServer
    new_handshake now wall data_bytes addr st =
        if length data_bytes == 50
        then issue_cookie now wall data_bytes addr st
        else if (length data_bytes == 66)
            && (is_valid_cookie wall (drop 50 data_bytes) addr && may_start now addr st)
        then start_handshake data_bytes addr st
        else (ok tt, st)

    abbrev pub handshake_packet :
        Option ℕ → ℕ → ℕ → Bytes → Addr → UdpServer → Result (Unit {0}) × UdpServer
    handshake_packet (some stream) now wall data_bytes addr st =
        feed_stream (some stream) data_bytes st
    handshake_packet none now wall data_bytes addr st =
        if is_hello (packet_type data_bytes)
        then new_handshake now wall data_bytes addr st
        else (ok tt, st)

    unfoldable pub handle_udp_datagram :
        ℕ → ℕ → Bytes → Addr → UdpServer → Result (Unit {0}) × UdpServer
    handle_udp_datagram now wall data_bytes addr st =
        if is_handshake_packet (packet_type data_bytes)
        then handshake_packet (get addr_key addr st.handshakes) now wall data_bytes addr st
        else feed_stream
            (first_of (get addr_key addr st.handshakes) (get addr_key addr st.sessions)) data_bytes
            st
