-- ===== src/Tests/Servers.antt =====
-- The theorems on the server at concrete inputs.
use usmp.Prelude.{
  List, ℕ, ◌+◌, ◌-◌, ◌*◌, ◌/◌, ◌≤◌, ◌<◌, ◌≡◌, refl, true, none, some, [], ◌∷◌, ◌++◌, Bytes, length,
  replicate, drop, get_or, arith,
}
use usmp.Prelude.Dict.{get, put}
use usmp.Errors.{ok}
use usmp.Types.{hello as hello_packet, hello_retry}
use usmp.Frame.{read_frame}
use usmp.Frame.RoundTrip.{sent_frame}
use usmp.Udp.{UdpStream, readexactly}
use usmp.Udp.Listener.Hello.{hello_is_read}
use usmp.Struct.{unpack_u32}
use usmp.Frame.Wire.{frame_bytes}
use usmp.Handshake.Limiter.{is_locked, second}
use usmp.Server.{Limits, value_of, is_idle, watchdog, OnTimeout, Wake, watches, closes, expire}
use usmp.Server.Counts.{occurs}
use usmp.Server.Cookie.{Buckets, bound_memory, token, capacity, allow_udp_cookie}
use usmp.Server.Cookie.Bound.{allow_udp_cookie_bound}
use usmp.Server.Cookie.Rate.{Calls, end_time, cookies_of, IsRoomy, cookie_rate}
use usmp.Server.Watchdog.{watchdog_silent, time_after}
use usmp.Server.Udp.{UdpReach, start, next, datagram, sessions_of, fresh_server}
use usmp.Server.Udp.Tasks.{ips, has_task}
use usmp.Server.Udp.Reach.{udp_slots}
use usmp.Udp.Feed.{utack_header}
use usmp.Udp.Listener.{
  UdpServer, is_valid_cookie, packet_type, cookie_for, may_start, handle_udp_datagram, time_bucket,
}
use usmp.Udp.Listener.Addresses.{Addr, addr_key}
use usmp.Udp.Listener.Cookies.{cookie_round_trip}
use usmp.Udp.Listener.Texts.{cookie_message-eq}
use usmp.Udp.Listener.Start.{StartsOrNot, handshake_starts}
use usmp.Udp.Listener.Decimal.{decimal}
use usmp.Tests.{toy, toy_laws}

abbrev limits : Limits
limits = record { max_connections = 4; max_connections_per_ip = 2 }

abbrev ip : Bytes
ip = 49 ∷ []

abbrev other_ip : Bytes
other_ip = 50 ∷ []

-- A bucket that is used up.
abbrev buckets : Buckets
buckets = (ip, record { tokens = 7; last = 100 }) ∷ []

allow_udp_cookie_bound_example : length (allow_udp_cookie other_ip 100 buckets).1 ≤ 1000
allow_udp_cookie_bound_example = allow_udp_cookie_bound other_ip 100 buckets (omega arith)

abbrev calls : Calls
calls = (ip, 100) ∷ (other_ip, 200) ∷ (ip, 1000) ∷ []

calls-IsRoomy : IsRoomy calls buckets
unfolding IsRoomy allow_udp_cookie bound_memory get put
calls-IsRoomy = omega arith

cookie_rate_example : cookies_of ip calls buckets * token ≤ capacity + (end_time 100 calls - 100)
cookie_rate_example = cookie_rate ip 100 calls buckets (omega arith) calls-IsRoomy

-- A peer that is silent after its second frame.
-- A session with frames at 10 and 40, whose second turn comes late, and a callback of 3.
abbrev on_timeout : OnTimeout
on_timeout = some (λ now. some (now + 3))

abbrev turns : List Wake
turns = record { late = 0; last_recv = 10 } ∷ record { late = 1; last_recv = 40 } ∷ []

abbrev silent_turns : List Wake
silent_turns =
    record { late = 0; last_recv = 40 }
    ∷ record { late = 2; last_recv = 40 }
    ∷ record { late = 0; last_recv = 40 }
    ∷ []

alive : watchdog on_timeout 60 0 turns ≡ watches
unfolding watchdog is_idle
alive = refl

closed_late : watchdog on_timeout 60 0 (turns ++ silent_turns) ≡ closes 126
unfolding watchdog is_idle
closed_late = refl

times : (time_after 60 0 turns ≡ 61) × (time_after 60 61 silent_turns ≡ 153)
unfolding time_after
times = (refl, refl)

watchdog_silent_example :
    (t : ℕ) × (watchdog on_timeout 60 0 (turns ++ silent_turns) ≡ expire on_timeout t)
    × (40 + 60 < t)
    × (t ≤ 40 + 60 + 60 / 2 + 2)
unfolding time_after
watchdog_silent_example =
    watchdog_silent on_timeout 60 0 40 2 turns silent_turns alive (omega arith) (omega arith)
      ((refl, omega arith, (refl, omega arith, (refl, omega arith, tt)))) (omega arith)

abbrev secret : Bytes
secret = 3 ∷ []

abbrev addr : Addr
addr = (ip, 9)

-- A HELLO without a cookie, and the same with the cookie of the first interval.
abbrev hello : Bytes
hello = 0xcd ∷ 0xab ∷ 2 ∷ 1 ∷ replicate 46 0

abbrev cookie : Bytes
cookie = cookie_for toy limits secret addr (decimal (time_bucket 5))

hello_type : packet_type hello ≡ some 1
unfolding packet_type
hello_type = refl

hello_type_again : packet_type (hello ++ cookie) ≡ some 1
unfolding packet_type cookie_for
hello_type_again = refl

no_handshake : get addr_key addr fresh_server.handshakes ≡ none
unfolding get
no_handshake = refl

cookie_allowed : (allow_udp_cookie addr.0 100 fresh_server.cookies).0 ≡ true
unfolding allow_udp_cookie get put bound_memory
cookie_allowed = refl

free : may_start toy limits secret 200 addr fresh_server ≡ true
unfolding may_start is_locked get
free = refl

cookie_round_trip_example :
    ((handle_udp_datagram toy limits secret 100 5 hello addr fresh_server).1.sent
      ≡ (utack_header (get_or hello 3 0) (unpack_u32 hello 4), addr)
        ∷ (frame_bytes hello_retry 0 cookie, addr)
        ∷ [])
    × ((handle_udp_datagram toy limits secret 200
          (30 * second)
          (hello ++ cookie)
          addr
          fresh_server).0
        ≡ ok tt)
    × ((handle_udp_datagram toy limits secret 200
          (30 * second)
          (hello ++ cookie)
          addr
          fresh_server).1.waiting
        ≡ (addr, 0) ∷ [])
cookie_round_trip_example =
    cookie_round_trip toy toy_laws limits secret 100 5 hello addr fresh_server refl (omega arith)
      hello_type no_handshake cookie_allowed 200 (30 * second) hello fresh_server (omega arith)
      (omega arith) refl (omega arith) hello_type_again no_handshake free

-- The server after the HELLO with the cookie.
abbrev begun : UdpServer
begun = (handle_udp_datagram toy limits secret 200 5 (hello ++ cookie) addr fresh_server).1

begun_reached : UdpReach toy limits secret begun
unfolding cookie_for
begun_reached = next start (datagram 200 5 (hello ++ cookie) addr fresh_server (omega arith))

handshake_starts_example :
    StartsOrNot toy limits secret 200 5 (hello ++ cookie) addr fresh_server begun
handshake_starts_example =
    handshake_starts toy limits secret 200 5 (hello ++ cookie) addr fresh_server

udp_slots_example :
    (length begun.sessions ≤ limits.max_connections)
    × (length begun.handshakes ≤ limits.max_connections * 2)
    × ((j : Bytes)
        → (sessions_of j begun.sessions ≤ limits.max_connections_per_ip)
          × (occurs j (ips begun.waiting) ≤ 3)
          × (value_of j begun.in_progress ≡ occurs j (ips begun.waiting)))
    × (begun.waiting ≡ [] → begun.in_progress ≡ [])
    × ((a : Addr) (stream : ℕ)
        → (get addr_key a begun.handshakes ≡ some stream → has_task a stream begun.waiting ≡ true)
          × (get addr_key a begun.sessions ≡ some stream → has_task a stream begun.serving ≡ true))
udp_slots_example = udp_slots toy limits secret begun begun_reached

-- A HELLO with its cookie, as the client sends it.
abbrev hello_payload : Bytes
hello_payload = replicate 38 2 ++ replicate 16 5

cookie_valid :
    is_valid_cookie toy limits secret 5 (drop 50 (frame_bytes hello_packet 1 hello_payload)) addr
    ≡ true
unfolding is_valid_cookie cookie_for
cookie_valid = refl

hello_is_read_example :
    let (result, st') =
      handle_udp_datagram toy limits secret 200 5
        (frame_bytes hello_packet 1 hello_payload)
        addr
        fresh_server in
    (result ≡ ok tt)
    × (st'.waiting ≡ (addr, 0) ∷ [])
    × (stream : UdpStream) × (rest : UdpStream) × (st'.streams ≡ stream ∷ [])
    × (read_frame readexactly true stream
        ≡ some (ok (sent_frame hello_packet 1 hello_payload), rest))
hello_is_read_example =
    hello_is_read toy limits secret 200 5 1 hello_payload addr fresh_server (omega arith) refl true
      no_handshake cookie_valid free

cookie_message-eq_example : (addr ≡ addr) × (◌≡◌ {A = ℕ} 12 12)
cookie_message-eq_example =
    cookie_message-eq addr addr 12 12 (omega arith) (omega arith) (omega arith) (omega arith) refl
