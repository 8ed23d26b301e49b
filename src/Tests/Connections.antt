-- ===== src/Tests/Connections.antt =====
-- A server's TCP connections at a concrete run.
use usmp.Prelude.{ℕ, ◌+◌, ◌≡◌, ◌≤◌, refl, false, true, [], ◌∷◌, Bytes, length, ltb, if◌then◌else◌}
use usmp.Prelude.Dict.{get, put, delete}
use usmp.Server.{Limits, value_of, total, tcp_admit, release}
use usmp.Server.Counts.{occurs}
use usmp.Server.Connections.{
  Task, Hub, HubReach, start, next, connects, watches, finishes, new_hub, on_connect, set_watched,
  finish, shut_down,
}
use usmp.Server.Connections.Tracked.{times, transports, task_ips, connections_tracked, server_stops}

abbrev limits : Limits
limits = record { max_connections = 4; max_connections_per_ip = 2 }

abbrev ip : Bytes
ip = 49 ∷ []

abbrev other_ip : Bytes
other_ip = 50 ∷ []

abbrev served : Task
served = record { transport = 0; ip = ip; watched = true }

abbrev waiting : Task
waiting = record { transport = 1; ip = other_ip; watched = false }

-- Two connections, of which the first has ended with its watchdog still running.
abbrev hub : Hub
hub = record {
  listening = true;
  accepted = 2;
  conn_tasks = waiting ∷ [];
  tcp_connections = (other_ip, 1) ∷ [];
  leaving = 0 ∷ [];
  closed = [];
}

hub-HubReach : HubReach limits hub
unfolding on_connect set_watched finish tcp_admit release get put delete
hub-HubReach =
    next
      (next
        (next (next start (connects ip new_hub refl))
          (watches 0 true (on_connect limits ip new_hub)))
        (connects other_ip (record (on_connect limits ip new_hub) { conn_tasks = served ∷ [] })
          refl))
      (finishes served (waiting ∷ []) []
        (record hub {
          conn_tasks = waiting ∷ served ∷ [];
          tcp_connections = (ip, 1) ∷ (other_ip, 1) ∷ [];
          leaving = [];
        })
        refl)

connections_tracked_example :
    ((i : ℕ)
      → times i (transports hub.conn_tasks) + times i hub.leaving + times i hub.closed
        ≡ (if ltb i hub.accepted then 1 else 0))
    × (length hub.conn_tasks ≤ limits.max_connections)
    × (total hub.tcp_connections ≡ length hub.conn_tasks)
    × ((j : Bytes)
        → (value_of j hub.tcp_connections ≡ occurs j (task_ips hub.conn_tasks))
          × (occurs j (task_ips hub.conn_tasks) ≤ limits.max_connections_per_ip))
connections_tracked_example = connections_tracked limits hub hub-HubReach

server_stops_example :
    ((shut_down hub).listening ≡ false)
    × ((shut_down hub).conn_tasks ≡ [])
    × ((shut_down hub).tcp_connections ≡ [])
    × ((i : ℕ)
        → times i (shut_down hub).closed + times i hub.leaving
          ≡ (if ltb i hub.accepted then 1 else 0))
server_stops_example = server_stops limits hub hub-HubReach
