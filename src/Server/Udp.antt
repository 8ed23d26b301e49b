-- ===== src/Server/Udp.antt =====
-- The UDP half of `_on_transport_connect` of sdk/python/src/usmp/_server.py, and how its tasks and the
-- datagrams follow on each other.
pub mod Tasks
pub mod Slots
pub mod Reach
use usmp.Prelude.{
  ℕ, ◌+◌, ◌≡◌, Bool, true, false, not, ◌&&◌, Option, none, some, List, [], ◌∷◌, ◌++◌, Bytes,
  bytes_eq, AreBytes, length, leb, ◌==◌, if◌then◌else◌,
}
use usmp.Prelude.Dict.{get, put, delete}
use usmp.Errors.{Error}
use usmp.Crypto.Backend.{Primitives}
use usmp.Handshake.Limiter.{Table}
use usmp.Server.{Limits, release, connection_failed}
use usmp.Udp.{UdpStream}
use usmp.Udp.Listener.{UdpServer, close_at, udp_stop, handle_udp_datagram}
use usmp.Udp.Listener.Addresses.{Addr, addr_key}

-- `sum(1 for a in self._udp_sessions if a[0] == limiter_key)`.
abbrev pub sessions_of : Bytes → List (Addr × ℕ) → ℕ
sessions_of ip [] = 0
sessions_of ip ((addr, stream) ∷ rest) = (if bytes_eq ip addr.0 then 1 else 0) + sessions_of ip rest

-- `old_session_stream.close()`, when there is one.
abbrev pub close_old : Option ℕ → List UdpStream → List UdpStream
close_old none streams = streams
close_old (some stream) streams = close_at stream streams

-- The two limits on sessions.
unfoldable pub has_room : Limits → Addr → List (Addr × ℕ) → Bool
has_room limits addr sessions =
    not (leb limits.max_connections (length sessions))
    && not (leb limits.max_connections_per_ip (sessions_of addr.0 sessions))

-- After the handshake of a stream: whether a session begins.
unfoldable pub udp_established : Limits → Addr → ℕ → UdpServer → Bool × UdpServer
udp_established limits addr stream st =
    let st' = record st { in_progress = release addr.0 st.in_progress } in
    if has_room limits addr st.sessions
    then (
      true,
      record st' {
        streams = close_old (get addr_key addr st.sessions) st.streams;
        sessions = put addr_key addr stream st.sessions;
        handshakes = delete addr_key addr st.handshakes;
      },
    )
    else (false, record st' { streams = close_at stream st.streams })

-- `... is transport`.
abbrev pub is_stream : ℕ → Option ℕ → Bool
is_stream stream none = false
is_stream stream (some other) = stream == other

-- `if self._udp_sessions.get(addr) is transport: self._udp_sessions.pop(addr, None)`.
unfoldable pub drop_stream : Addr → ℕ → List (Addr × ℕ) → List (Addr × ℕ)
drop_stream addr stream entries =
    if is_stream stream (get addr_key addr entries) then delete addr_key addr entries else entries

-- The `finally` clause; the first argument is `handshake_decremented`.
unfoldable pub udp_finished : Bool → Addr → ℕ → UdpServer → UdpServer
udp_finished decremented addr stream st = record st {
  in_progress = if decremented then st.in_progress else release addr.0 st.in_progress;
  handshakes = drop_stream addr stream st.handshakes;
  sessions = drop_stream addr stream st.sessions;
}

-- The `except` clauses; `none` is a session whose handler returns, or a task that is cancelled.
abbrev pub note_error : Bytes → ℕ → Option Error → UdpServer → UdpServer
note_error ip now none st = st
note_error ip now (some e) st = record st { failures = (connection_failed ip now e st.failures).1 }

-- What may happen next: a datagram; the handshake of a waiting task succeeds, with or without room for
-- a session, or fails; a session ends; or tasks read and write their streams, and their handshakes count
-- failures and forget them; or the listener stops.
pub data UdpStep (P : Primitives) (limits : Limits) (secret : Bytes)
    : UdpServer → UdpServer → Type 0 where
  datagram :
      (now wall : ℕ) (data_bytes : Bytes) (addr : Addr) (st : UdpServer)
      → AreBytes data_bytes
      → UdpStep P limits secret st
          (handle_udp_datagram P limits secret now wall data_bytes addr st).1
  established :
      (addr : Addr) (stream : ℕ) (before after : List (Addr × ℕ)) (st : UdpServer)
      → st.waiting ≡ before ++ (addr, stream) ∷ after
      → has_room limits addr st.sessions ≡ true
      → UdpStep P limits secret st (record ((udp_established limits addr stream st).1) {
        waiting = before ++ after;
        serving = (addr, stream) ∷ st.serving;
      })
  rejected :
      (addr : Addr) (stream : ℕ) (before after : List (Addr × ℕ)) (st : UdpServer)
      → st.waiting ≡ before ++ (addr, stream) ∷ after
      → has_room limits addr st.sessions ≡ false
      → UdpStep P limits secret st
          (record (udp_finished true addr stream ((udp_established limits addr stream st).1)) {
            waiting = before ++ after;
          })
  failed :
      (now : ℕ) (outcome : Option Error) (addr : Addr) (stream : ℕ) (before after : List (Addr × ℕ))
      (st : UdpServer)
      → st.waiting ≡ before ++ (addr, stream) ∷ after
      → UdpStep P limits secret st
          (record (udp_finished false addr stream (note_error addr.0 now outcome st)) {
            waiting = before ++ after;
          })
  ended :
      (now : ℕ) (outcome : Option Error) (addr : Addr) (stream : ℕ) (before after : List (Addr × ℕ))
      (st : UdpServer)
      → st.serving ≡ before ++ (addr, stream) ∷ after
      → UdpStep P limits secret st
          (record (udp_finished true addr stream (note_error addr.0 now outcome st)) {
            serving = before ++ after;
          })
  streamed :
      (streams : List UdpStream) (failures : Table) (st : UdpServer)
      → length streams ≡ length st.streams
      → UdpStep P limits secret st (record st { streams = streams; failures = failures })
  stopped : (st : UdpServer) → UdpStep P limits secret st (udp_stop st)

-- A server that has just started.
abbrev pub fresh_server : UdpServer
fresh_server = record {
  sessions = [];
  handshakes = [];
  in_progress = [];
  streams = [];
  sent = [];
  waiting = [];
  serving = [];
  failures = [];
  cookies = [];
}

pub data UdpReach (P : Primitives) (limits : Limits) (secret : Bytes) : UdpServer → Type 0 where
  start : UdpReach P limits secret fresh_server
  next :
      {s t : UdpServer}
      → UdpReach P limits secret s
      → UdpStep P limits secret s t
      → UdpReach P limits secret t
