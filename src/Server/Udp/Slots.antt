-- ===== src/Server/Udp/Slots.antt =====
-- The limits of the UDP server and who holds its entries, whatever datagrams come and tasks do.
use usmp.Prelude.{
  ℕ, ◌+◌, ◌*◌, ◌≤◌, ◌<◌, ◌≡◌, ap, true, false, List, [], ◌∷◌, ◌++◌, Bytes, bytes_eq, length, arith,
  if◌then◌else◌, Bool-cases, inl, inr,
}
use usmp.Prelude.Dict.{bytes_key, get, put, delete, length-put, length-delete}
use usmp.Server.{Limits, Counts, value_of, release}
use usmp.Server.Counts.{occurs, occurs-append, Counted, empty-Counted, put-Counted, release-Counted}
use usmp.Server.Udp.{
  sessions_of, drop_stream, has_room, udp_established, udp_finished, fresh_server,
}
use usmp.Server.Udp.Tasks.{
  ips, ips-append, AreServed, put-AreServed, delete-AreServed, drop-AreServed, drop-AreServed_other,
}
use usmp.Udp.Listener.{UdpServer}
use usmp.Udp.Listener.Addresses.{Addr, addr_key}

sessions_of-put :
    (ip : Bytes) (addr : Addr) (stream : ℕ) (entries : List (Addr × ℕ))
    → sessions_of ip (put addr_key addr stream entries)
      ≤ sessions_of ip entries + (if bytes_eq ip addr.0 then 1 else 0)
unfolding put
sessions_of-put ip addr stream [] = omega arith
sessions_of-put ip addr stream ((a, i) ∷ rest) = ground (arith, sessions_of-put ip addr stream rest)

sessions_of-delete :
    (ip : Bytes) (addr : Addr) (entries : List (Addr × ℕ))
    → sessions_of ip (delete addr_key addr entries) ≤ sessions_of ip entries
unfolding delete
sessions_of-delete ip addr [] = omega arith
sessions_of-delete ip addr ((a, i) ∷ rest) = ground (arith, sessions_of-delete ip addr rest)

-- The sessions within their limits.
pub record SessionsFit (limits : Limits) (sessions : List (Addr × ℕ)) : Type 0 where
  pub all : length sessions ≤ limits.max_connections
  pub each : (ip : Bytes) → sessions_of ip sessions ≤ limits.max_connections_per_ip

put-SessionsFit :
    (limits : Limits) (addr : Addr) (stream : ℕ) (sessions : List (Addr × ℕ))
    → has_room limits addr sessions ≡ true
    → SessionsFit limits sessions
    → SessionsFit limits (put addr_key addr stream sessions)
unfolding has_room
put-SessionsFit limits addr stream sessions room v =
    let free : (length sessions < limits.max_connections)
        × (sessions_of addr.0 sessions < limits.max_connections_per_ip) =
      ground arith in
    record {
      all = omega (arith, length-put addr_key addr stream sessions, free.0);
      each = λ ip. elim (Bool-cases (bytes_eq ip addr.0)) [
        | inl e ↦ omega (
          arith,
          sessions_of-put ip addr stream sessions,
          ap {B = ℕ} (λ b. if b then 1 else 0) e,
          ap (λ k. sessions_of k sessions) (bytes_key.eq_of_same ip addr.0 e),
          free.1,
        )
        | inr e ↦ omega (
          arith,
          sessions_of-put ip addr stream sessions,
          ap {B = ℕ} (λ b. if b then 1 else 0) e,
          v.each ip,
        )
      ];
    }

drop-SessionsFit :
    (limits : Limits) (addr : Addr) (stream : ℕ) (sessions : List (Addr × ℕ))
    → SessionsFit limits sessions
    → SessionsFit limits (drop_stream addr stream sessions)
unfolding drop_stream
drop-SessionsFit limits addr stream sessions v = record {
  all = ground (arith, v.all, length-delete addr_key addr sessions);
  each = λ ip. ground (arith, v.each ip, sessions_of-delete ip addr sessions);
}

drop_length :
    (addr : Addr) (stream : ℕ) (entries : List (Addr × ℕ))
    → length (drop_stream addr stream entries) ≤ length entries
unfolding drop_stream
drop_length addr stream entries = ground (arith, length-delete addr_key addr entries)

-- The handshakes in progress.
pub record TasksFit (in_progress : Counts) (tasks : List (Addr × ℕ)) : Type 0 where
  pub counted : Counted in_progress (ips tasks)
  pub each : (ip : Bytes) → occurs ip (ips tasks) ≤ 3

pub put-TasksFit :
    (addr : Addr) (stream : ℕ) (in_progress : Counts) (tasks : List (Addr × ℕ))
    → value_of addr.0 in_progress < 3
    → TasksFit in_progress tasks
    → TasksFit
        (put bytes_key addr.0 (value_of addr.0 in_progress + 1) in_progress)
        ((addr, stream) ∷ tasks)
put-TasksFit addr stream in_progress tasks few v = record {
  counted = put-Counted in_progress (ips tasks) addr.0 v.counted;
  each = λ ip. elim (Bool-cases (bytes_eq ip addr.0)) [
    | inl e ↦ rw e (
        omega (
          arith,
          few,
          v.counted.exact addr.0,
          ap (λ k. occurs k (ips tasks)) (bytes_key.eq_of_same ip addr.0 e),
        ))
    | inr e ↦ rw e (omega (arith, v.each ip))
  ];
}

release-TasksFit :
    (addr : Addr) (stream : ℕ) (in_progress : Counts) (before after : List (Addr × ℕ))
    → TasksFit in_progress (before ++ (addr, stream) ∷ after)
    → TasksFit (release addr.0 in_progress) (before ++ after)
release-TasksFit addr stream in_progress before after v =
    let all : ips (before ++ (addr, stream) ∷ after) ≡ ips before ++ addr.0 ∷ ips after =
      ips-append before ((addr, stream) ∷ after) in
    let held : Counted in_progress (ips before ++ addr.0 ∷ ips after) = rw (← all) v.counted in
    record {
      counted =
          rw (ips-append before after)
            (release-Counted in_progress addr.0 (ips before) (ips after) held);
      each = λ ip. omega (
        arith,
        v.each ip,
        ap (occurs ip) all,
        ap (occurs ip) (ips-append before after),
        occurs-append ip (ips before) (addr.0 ∷ ips after),
        occurs-append ip (ips before) (ips after),
      );
    }

-- What holds of the server.
pub record IsSound (limits : Limits) (st : UdpServer) : Type 0 where
  pub tasks : TasksFit st.in_progress st.waiting
  pub handshakes_bound : length st.handshakes ≤ limits.max_connections * 2
  pub sessions_fit : SessionsFit limits st.sessions
  pub handshakes_served : AreServed st.handshakes st.waiting
  pub sessions_served : AreServed st.sessions st.serving

pub fresh-IsSound : (limits : Limits) → IsSound limits fresh_server
unfolding get
fresh-IsSound limits = record {
  tasks = record { counted = empty-Counted; each = λ ip. omega arith };
  handshakes_bound = omega arith;
  sessions_fit = record { all = omega arith; each = λ ip. omega arith };
  handshakes_served = record { dict = tt; live = λ a i h. cc };
  sessions_served = record { dict = tt; live = λ a i h. cc };
}

-- The end of a task.
pub finished-IsSound :
    (limits : Limits) (addr : Addr) (stream : ℕ) (before after : List (Addr × ℕ)) (st : UdpServer)
    → st.serving ≡ before ++ (addr, stream) ∷ after
    → IsSound limits st
    → IsSound limits (record (udp_finished true addr stream st) { serving = before ++ after })
unfolding udp_finished
finished-IsSound limits addr stream before after st at v = record {
  tasks = v.tasks;
  handshakes_bound = omega (arith, v.handshakes_bound, drop_length addr stream st.handshakes);
  sessions_fit = drop-SessionsFit limits addr stream st.sessions v.sessions_fit;
  handshakes_served = drop-AreServed_other addr stream st.handshakes st.waiting v.handshakes_served;
  sessions_served =
      drop-AreServed addr stream st.sessions before after (rw (← at) v.sessions_served);
}

pub failed-IsSound :
    (limits : Limits) (addr : Addr) (stream : ℕ) (before after : List (Addr × ℕ)) (st : UdpServer)
    → st.waiting ≡ before ++ (addr, stream) ∷ after
    → IsSound limits st
    → IsSound limits (record (udp_finished false addr stream st) { waiting = before ++ after })
unfolding udp_finished
failed-IsSound limits addr stream before after st at v = record {
  tasks = release-TasksFit addr stream st.in_progress before after (rw (← at) v.tasks);
  handshakes_bound = omega (arith, v.handshakes_bound, drop_length addr stream st.handshakes);
  sessions_fit = drop-SessionsFit limits addr stream st.sessions v.sessions_fit;
  handshakes_served =
      drop-AreServed addr stream st.handshakes before after (rw (← at) v.handshakes_served);
  sessions_served = drop-AreServed_other addr stream st.sessions st.serving v.sessions_served;
}

pub established-IsSound :
    (limits : Limits) (addr : Addr) (stream : ℕ) (before after : List (Addr × ℕ)) (st : UdpServer)
    → st.waiting ≡ before ++ (addr, stream) ∷ after
    → has_room limits addr st.sessions ≡ true
    → IsSound limits st
    → IsSound limits (record ((udp_established limits addr stream st).1) {
      waiting = before ++ after;
      serving = (addr, stream) ∷ st.serving;
    })
unfolding udp_established
established-IsSound limits addr stream before after st at room v = rw room (record {
  tasks = release-TasksFit addr stream st.in_progress before after (rw (← at) v.tasks);
  handshakes_bound = omega (arith, v.handshakes_bound, length-delete addr_key addr st.handshakes);
  sessions_fit = put-SessionsFit limits addr stream st.sessions room v.sessions_fit;
  handshakes_served =
      delete-AreServed addr stream st.handshakes before after (rw (← at) v.handshakes_served);
  sessions_served = put-AreServed addr stream st.sessions st.serving v.sessions_served;
})

pub rejected-IsSound :
    (limits : Limits) (addr : Addr) (stream : ℕ) (before after : List (Addr × ℕ)) (st : UdpServer)
    → st.waiting ≡ before ++ (addr, stream) ∷ after
    → has_room limits addr st.sessions ≡ false
    → IsSound limits st
    → IsSound limits
        (record (udp_finished true addr stream ((udp_established limits addr stream st).1)) {
          waiting = before ++ after;
        })
unfolding udp_established udp_finished
rejected-IsSound limits addr stream before after st at full v = rw full (record {
  tasks = release-TasksFit addr stream st.in_progress before after (rw (← at) v.tasks);
  handshakes_bound = omega (arith, v.handshakes_bound, drop_length addr stream st.handshakes);
  sessions_fit = drop-SessionsFit limits addr stream st.sessions v.sessions_fit;
  handshakes_served =
      drop-AreServed addr stream st.handshakes before after (rw (← at) v.handshakes_served);
  sessions_served = drop-AreServed_other addr stream st.sessions st.serving v.sessions_served;
})
