-- ===== src/Server/Connections.antt =====
-- The tasks of TCP connections, from `_on_transport_connect` of sdk/python/src/usmp/_server.py to its
-- `finally`, and the end of `serve` with `TCPListener.stop` of transport/tcp.py.
pub mod Tracked
use usmp.Prelude.{
  ℕ, ◌+◌, ◌≡◌, Bool, true, false, Option, none, some, List, [], ◌∷◌, ◌++◌, Bytes, ◌==◌,
  if◌then◌else◌,
}
use usmp.Server.{Limits, Counts, tcp_admit, release}

-- A task of `_conn_tasks`: its transport, the address, and whether the watchdog of its session runs.
pub record Task : Type 0 where
  pub transport : ℕ
  pub ip : Bytes
  pub watched : Bool

-- `_conn_tasks` and `_tcp_connections`, with the transports by number: how many connections have come,
-- those whose task waits for its watchdog before it closes them, and those closed.
pub record Hub : Type 0 where
  pub listening : Bool
  pub accepted : ℕ
  pub conn_tasks : List Task
  pub tcp_connections : Counts
  pub leaving : List ℕ
  pub closed : List ℕ

-- Once `serve` listens.
abbrev pub new_hub : Hub
new_hub = record {
  listening = true;
  accepted = 0;
  conn_tasks = [];
  tcp_connections = [];
  leaving = [];
  closed = [];
}

-- A connection over a limit is closed at once, and its task is gone.
abbrev pub admitted : Bytes → Option Counts → Hub → Hub
admitted ip none h = record h { accepted = h.accepted + 1; closed = h.accepted ∷ h.closed }
admitted ip (some counts) h = record h {
  accepted = h.accepted + 1;
  tcp_connections = counts;
  conn_tasks = record { transport = h.accepted; ip = ip; watched = false } ∷ h.conn_tasks;
}

-- `_on_transport_connect` before the handshake.
unfoldable pub on_connect : Limits → Bytes → Hub → Hub
on_connect limits ip h = admitted ip (tcp_admit limits ip h.tcp_connections) h

-- The watchdog of a task starts, or ends.
unfoldable pub set_watched : ℕ → Bool → List Task → List Task
set_watched transport watched [] = []
set_watched transport watched (t ∷ rest) =
    (if t.transport == transport then (record t { watched = watched }) else t)
    ∷ set_watched transport watched rest

-- The `finally`, up to its first `await`: it waits for a watchdog that runs, and else closes. The
-- tasks are those besides its own.
unfoldable pub finish : Task → List Task → Hub → Hub
finish t others h =
    if t.watched
    then (record h {
      conn_tasks = others;
      tcp_connections = release t.ip h.tcp_connections;
      leaving = t.transport ∷ h.leaving;
    })
    else (record h {
      conn_tasks = others;
      tcp_connections = release t.ip h.tcp_connections;
      closed = t.transport ∷ h.closed;
    })

-- Tasks that are cancelled and awaited: each runs its `finally` to the end.
unfoldable pub cancel_all : List Task → Hub → Hub
cancel_all [] h = h
cancel_all (t ∷ others) h = cancel_all others (record h {
  conn_tasks = others;
  tcp_connections = release t.ip h.tcp_connections;
  closed = t.transport ∷ h.closed;
})

-- `TCPListener.stop`.
unfoldable pub stop : Hub → Hub
stop h = cancel_all h.conn_tasks (record h { listening = false })

-- The `finally` of `serve`: the listener stops, and the tasks that are left are cancelled.
unfoldable pub shut_down : Hub → Hub
unfolding stop
shut_down h = cancel_all (stop h).conn_tasks (stop h)

-- What happens between two awaits.
pub data HubStep (limits : Limits) : Hub → Hub → Type 0 where
  connects : (ip : Bytes) (h : Hub) → h.listening ≡ true → HubStep limits h (on_connect limits ip h)
  watches :
      (transport : ℕ) (watched : Bool) (h : Hub)
      → HubStep limits h (record h { conn_tasks = set_watched transport watched h.conn_tasks })
  finishes :
      (t : Task) (before after : List Task) (h : Hub)
      → h.conn_tasks ≡ before ++ t ∷ after
      → HubStep limits h (finish t (before ++ after) h)
  closes :
      (transport : ℕ) (before after : List ℕ) (h : Hub)
      → h.leaving ≡ before ++ transport ∷ after
      → HubStep limits h (record h { leaving = before ++ after; closed = transport ∷ h.closed })
  stops : (h : Hub) → HubStep limits h (shut_down h)

-- The states that any order of steps leads to.
pub data HubReach (limits : Limits) : Hub → Type 0 where
  start : HubReach limits new_hub
  next : {h k : Hub} → HubReach limits h → HubStep limits h k → HubReach limits k
