-- ===== src/Server/Connections/Tracked.antt =====
-- Where the transports of TCP connections are, and what is left of them when the server stops.
use usmp.Prelude.{
  ℕ, ◌+◌, ◌≤◌, ◌≡◌, ◌∙◌, refl, ap, Bool, false, List, [], ◌∷◌, ◌++◌, Bytes, length, ltb, ◌==◌,
  if◌then◌else◌, Bool-cases, Option-cases, inl, inr, arith,
}
use mathlib.Core.Path.{subst}
use usmp.Server.{Limits, Counts, value_of, total, tcp_admit, release}
use usmp.Server.Counts.{occurs, Counted, Counted-empty}
use usmp.Server.Admission.{
  admitted as tcp_admitted, closed as tcp_closed, IsWithin, TcpStep-IsWithin, TcpReach,
  reach-IsWithin,
}
use usmp.Server.Connections.{
  Task, Hub, on_connect, set_watched, finish, cancel_all, stop, shut_down, HubStep, connects,
  watches, finishes, closes, stops, HubReach, start, next,
}

-- How often a number is in a list.
abbrev pub times : ℕ → List ℕ → ℕ
times i [] = 0
times i (x ∷ xs) = (if x == i then 1 else 0) + times i xs

times-append : (i : ℕ) (xs ys : List ℕ) → times i (xs ++ ys) ≡ times i xs + times i ys
times-append i [] ys = omega arith
times-append i (x ∷ xs) ys = omega (arith, times-append i xs ys)

abbrev pub transports : List Task → List ℕ
transports [] = []
transports (t ∷ rest) = t.transport ∷ transports rest

abbrev pub task_ips : List Task → List Bytes
task_ips [] = []
task_ips (t ∷ rest) = t.ip ∷ task_ips rest

transports-append : (xs ys : List Task) → transports (xs ++ ys) ≡ transports xs ++ transports ys
transports-append [] ys = refl
transports-append (x ∷ xs) ys = ap (λ l. x.transport ∷ l) (transports-append xs ys)

task_ips-append : (xs ys : List Task) → task_ips (xs ++ ys) ≡ task_ips xs ++ task_ips ys
task_ips-append [] ys = refl
task_ips-append (x ∷ xs) ys = ap (λ l. x.ip ∷ l) (task_ips-append xs ys)

-- Every transport is in one place, and the counts are those of the tasks.
pub record IsTracked (limits : Limits) (h : Hub) : Type 0 where
  pub place :
      (i : ℕ)
      → times i (transports h.conn_tasks) + times i h.leaving + times i h.closed
        ≡ (if ltb i h.accepted then 1 else 0)
  pub within : IsWithin limits (h.tcp_connections, task_ips h.conn_tasks)

on_connect-IsTracked :
    (limits : Limits) (ip : Bytes) (h : Hub)
    → IsTracked limits h
    → IsTracked limits (on_connect limits ip h)
unfolding on_connect
on_connect-IsTracked limits ip h v = elim (Option-cases (tcp_admit limits ip h.tcp_connections)) [
  | inl over ↦ rw over (record { place = λ i. ground (arith, v.place i); within = v.within })
  | inr (counts, e) ↦ rw e (record {
    place = λ i. ground (arith, v.place i);
    within =
        TcpStep-IsWithin limits (tcp_admitted ip h.tcp_connections counts (task_ips h.conn_tasks) e)
          v.within;
  })
]

-- A watchdog moves nothing.
transports-set_watched :
    (i : ℕ) (b : Bool) (tasks : List Task) → transports (set_watched i b tasks) ≡ transports tasks
unfolding set_watched
transports-set_watched i b [] = refl
transports-set_watched i b (t ∷ rest) = ground (arith, transports-set_watched i b rest)

task_ips-set_watched :
    (i : ℕ) (b : Bool) (tasks : List Task) → task_ips (set_watched i b tasks) ≡ task_ips tasks
unfolding set_watched
task_ips-set_watched i b [] = refl
task_ips-set_watched i b (t ∷ rest) = ground (arith, task_ips-set_watched i b rest)

times_task :
    (i : ℕ) (t : Task) (before after : List Task)
    → times i (transports (before ++ t ∷ after))
      ≡ (if t.transport == i then 1 else 0) + times i (transports (before ++ after))
times_task i t before after =
    let e1 = ap (times i) (transports-append before (t ∷ after)) in
    let e2 = ap (times i) (transports-append before after) in
    omega (
      arith,
      e1,
      e2,
      times-append i (transports before) (transports (t ∷ after)),
      times-append i (transports before) (transports after),
    )

released-IsWithin :
    (limits : Limits) (t : Task) (before after : List Task) (counts : Counts)
    → IsWithin limits (counts, task_ips (before ++ t ∷ after))
    → IsWithin limits (release t.ip counts, task_ips (before ++ after))
released-IsWithin limits t before after counts v = rw (task_ips-append before after) (
    TcpStep-IsWithin limits (tcp_closed t.ip counts (task_ips before) (task_ips after))
      (rw (task_ips-append before (t ∷ after)) at v))

finish-IsTracked :
    (limits : Limits) (t : Task) (before after : List Task) (h : Hub)
    → h.conn_tasks ≡ before ++ t ∷ after
    → IsTracked limits h
    → IsTracked limits (finish t (before ++ after) h)
unfolding finish
finish-IsTracked limits t before after h e v =
    let within : IsWithin limits (release t.ip h.tcp_connections, task_ips (before ++ after)) =
      released-IsWithin limits t before after h.tcp_connections
        (subst (λ l. IsWithin limits (h.tcp_connections, task_ips l)) e v.within) in
    let same = λ (i : ℕ). ap (λ l. times i (transports l)) e in
    elim (Bool-cases t.watched) [
      | inl watched ↦ rw watched (record {
        place = λ i. omega (arith, v.place i, same i, times_task i t before after);
        within = within;
      })
      | inr free ↦ rw free (record {
        place = λ i. omega (arith, v.place i, same i, times_task i t before after);
        within = within;
      })
    ]

cancel_all-IsTracked :
    (limits : Limits) (tasks : List Task) (h : Hub)
    → h.conn_tasks ≡ tasks
    → IsTracked limits h
    → IsTracked limits (cancel_all tasks h)
unfolding cancel_all
cancel_all-IsTracked limits [] h e v = v
cancel_all-IsTracked limits (t ∷ others) h e v = cancel_all-IsTracked limits others _ refl (record {
  place = λ i. omega (arith, v.place i, ap (λ l. times i (transports l)) e);
  within =
      released-IsWithin limits t [] others h.tcp_connections
        (subst (λ l. IsWithin limits (h.tcp_connections, task_ips l)) e v.within);
})

HubStep-IsTracked :
    (limits : Limits) {h k : Hub} → HubStep limits h k → IsTracked limits h → IsTracked limits k
unfolding shut_down
HubStep-IsTracked limits (connects ip h listening) v = on_connect-IsTracked limits ip h v
HubStep-IsTracked limits (watches i b h) v = record {
  place = λ j.
      ap (λ l. times j l + times j h.leaving + times j h.closed)
        (transports-set_watched i b h.conn_tasks)
      ∙ v.place j;
  within = rw (task_ips-set_watched i b h.conn_tasks) v.within;
}
HubStep-IsTracked limits (finishes t before after h e) v =
    finish-IsTracked limits t before after h e v
HubStep-IsTracked limits (closes i before after h e) v = record {
  place = λ j. omega (
    arith,
    v.place j,
    ap (times j) e,
    times-append j before (i ∷ after),
    times-append j before after,
  );
  within = v.within;
}
HubStep-IsTracked limits (stops h) v =
    cancel_all-IsTracked limits (stop h).conn_tasks (stop h) refl (
      cancel_all-IsTracked limits h.conn_tasks (record h { listening = false }) refl
        (record { place = v.place; within = v.within }))

pub HubReach-IsTracked : (limits : Limits) {h : Hub} → HubReach limits h → IsTracked limits h
HubReach-IsTracked limits start = record {
  place = λ i. ground arith;
  within = reach-IsWithin limits TcpReach.start;
}
HubReach-IsTracked limits (next r step) =
    HubStep-IsTracked limits step (HubReach-IsTracked limits r)

length-task_ips : (tasks : List Task) → length (task_ips tasks) ≡ length tasks
length-task_ips [] = refl
length-task_ips (t ∷ rest) = omega (arith, length-task_ips rest)

-- However connections come, go and are watched, and whenever the server stops: the transport of
-- every connection that has come is in just one place, with a task, waiting for its watchdog or
-- closed, and no other transport is in any; the tasks are within the global limit and each
-- address's within its own; and the counts are their numbers.
pub connections_tracked :
    (limits : Limits) (h : Hub)
    → HubReach limits h
    → ((i : ℕ)
        → times i (transports h.conn_tasks) + times i h.leaving + times i h.closed
          ≡ (if ltb i h.accepted then 1 else 0))
      × (length h.conn_tasks ≤ limits.max_connections)
      × (total h.tcp_connections ≡ length h.conn_tasks)
      × ((ip : Bytes)
          → (value_of ip h.tcp_connections ≡ occurs ip (task_ips h.conn_tasks))
            × (occurs ip (task_ips h.conn_tasks) ≤ limits.max_connections_per_ip))
connections_tracked limits h r =
    let v = HubReach-IsTracked limits r in
    (
      v.place,
      omega (arith, v.within.all, length-task_ips h.conn_tasks),
      v.within.counted.sum ∙ length-task_ips h.conn_tasks,
      λ ip. (v.within.counted.exact ip, v.within.each ip),
    )

-- What the cancelling of all tasks leaves.
record IsCancelled (before after : Hub) : Type 0 where
  tasks : after.conn_tasks ≡ []
  listening : after.listening ≡ before.listening
  accepted_all : after.accepted ≡ before.accepted
  leaving : after.leaving ≡ before.leaving

cancel_all-IsCancelled :
    (tasks : List Task) (h : Hub) → h.conn_tasks ≡ tasks → IsCancelled h (cancel_all tasks h)
unfolding cancel_all
cancel_all-IsCancelled [] h e = record {
  tasks = e;
  listening = refl;
  accepted_all = refl;
  leaving = refl;
}
cancel_all-IsCancelled (t ∷ others) h e =
    let rest =
      cancel_all-IsCancelled others
        (record h {
          conn_tasks = others;
          tcp_connections = release t.ip h.tcp_connections;
          closed = t.transport ∷ h.closed;
        })
        refl in
    record {
      tasks = rest.tasks;
      listening = rest.listening;
      accepted_all = rest.accepted_all;
      leaving = rest.leaving;
    }

-- When a server that any connections have come to and gone from stops, it no longer listens, no
-- task and no count is left, and every transport that has come is closed, but for those that
-- already wait for their watchdog.
pub server_stops :
    (limits : Limits) (h : Hub)
    → HubReach limits h
    → ((shut_down h).listening ≡ false)
      × ((shut_down h).conn_tasks ≡ [])
      × ((shut_down h).tcp_connections ≡ [])
      × ((i : ℕ)
          → times i (shut_down h).closed + times i h.leaving ≡ (if ltb i h.accepted then 1 else 0))
unfolding shut_down
server_stops limits h r =
    let c = cancel_all-IsCancelled h.conn_tasks (record h { listening = false }) refl in
    let again = cancel_all-IsCancelled (stop h).conn_tasks (stop h) refl in
    let v = HubStep-IsTracked limits (stops h) (HubReach-IsTracked limits r) in
    (
      again.listening ∙ c.listening,
      again.tasks,
      Counted-empty ((shut_down h).tcp_connections) (
          subst (λ l. Counted ((shut_down h).tcp_connections) (task_ips l)) again.tasks
            v.within.counted),
      λ i. omega (
        arith,
        v.place i,
        ap (λ l. times i (transports l)) again.tasks,
        ap (times i) (again.leaving ∙ c.leaving),
        ap {B = ℕ} (λ (n : ℕ). if ltb i n then 1 else 0) (again.accepted_all ∙ c.accepted_all),
      ),
    )
