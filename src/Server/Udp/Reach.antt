-- ===== src/Server/Udp/Reach.antt =====
-- The limits of the UDP server along its steps.
use usmp.Prelude.{
  ℕ, ◌*◌, ◌≤◌, ◌<◌, ◌≡◌, ap, Bool, true, ◌&&◌, Option, none, some, List, [], ◌∷◌, ◌++◌, Bytes,
  AreBytes, length, drop, get_or, ◌==◌, arith, Bool-cases, inl, inr,
}
use usmp.Prelude.Dict.{get, length-put}
use usmp.Errors.{Error, Result, ok, err}
use usmp.Crypto.Backend.{Primitives}
use usmp.Handshake.Limiter.{Table}
use usmp.Server.{Limits, value_of}
use usmp.Server.Cookie.{Buckets, allow_udp_cookie}
use usmp.Server.Counts.{occurs, Counted-empty}
use usmp.Server.Udp.{
  sessions_of, note_error, UdpStep, UdpReach, start, next, datagram, established, rejected, failed,
  ended, streamed, stopped,
}
use usmp.Server.Udp.Tasks.{ips, has_task, put-AreServed}
use usmp.Server.Udp.Slots.{
  IsSound, put-TasksFit, fresh-IsSound, finished-IsSound, failed-IsSound, established-IsSound,
  rejected-IsSound,
}
use usmp.Udp.{UdpStream}
use usmp.Udp.Feed.{feed_packet-ok}
use usmp.Types.{hello_retry}
use usmp.Struct.{unpack_u32}
use usmp.Frame.{encode_frame}
use usmp.Udp.Listener.Decimal.{decimal}
use usmp.Udp.Listener.{
  udp_stop, plain_utack, time_bucket, cookie_for, UdpServer, sendto_addr, then_sendto, first_of,
  is_hello, is_handshake_packet, packet_type, handle_udp_datagram, handshake_packet, feed_at,
  feed_stream, send_retry, issue_cookie, is_valid_cookie, new_handshake, start_handshake, may_start,
  new_stream,
}
use usmp.Udp.Listener.Addresses.{Addr, addr_key}

-- The streams, what was sent and the two rate limiters do not matter.
other-IsSound :
    (limits : Limits) (st : UdpServer) (streams : List UdpStream) (sent : List (Bytes × Addr))
    (failures : Table) (cookies : Buckets)
    → IsSound limits st
    → IsSound limits
        (record st { streams = streams; sent = sent; failures = failures; cookies = cookies })
other-IsSound limits st streams sent failures cookies v = record {
  tasks = v.tasks;
  handshakes_bound = v.handshakes_bound;
  sessions_fit = v.sessions_fit;
  handshakes_served = v.handshakes_served;
  sessions_served = v.sessions_served;
}

sendto-IsSound :
    (limits : Limits) (packet : Result Bytes) (addr : Addr) (st : UdpServer)
    → IsSound limits st
    → IsSound limits (sendto_addr packet addr st).1
sendto-IsSound limits (ok packet) addr st v =
    other-IsSound limits st st.streams (st.sent ++ (packet, addr) ∷ []) st.failures st.cookies v
sendto-IsSound limits (err e) addr st v = v

then_sendto-IsSound :
    (limits : Limits) (first : Result (Unit {0}) × UdpServer) (packet : Result Bytes) (addr : Addr)
    → IsSound limits first.1
    → IsSound limits (then_sendto first packet addr).1
then_sendto-IsSound limits (ok u, st) packet addr v = sendto-IsSound limits packet addr st v
then_sendto-IsSound limits (err e, st) packet addr v = v

note_error-IsSound :
    (limits : Limits) (ip : Bytes) (now : ℕ) (outcome : Option Error) (st : UdpServer)
    → IsSound limits st
    → IsSound limits (note_error ip now outcome st)
note_error-IsSound limits ip now none st v = v
note_error-IsSound limits ip now (some e) st v =
    other-IsSound limits st st.streams st.sent (note_error ip now (some e) st).failures st.cookies v

stopped-IsSound :
    (limits : Limits) (st : UdpServer) → IsSound limits st → IsSound limits (udp_stop st)
unfolding udp_stop get
stopped-IsSound limits st v = record {
  tasks = v.tasks;
  handshakes_bound = omega arith;
  sessions_fit = record { all = omega arith; each = λ ip. omega arith };
  handshakes_served = record { dict = tt; live = λ a i h. cc };
  sessions_served = record { dict = tt; live = λ a i h. cc };
}

module _ (P : Primitives) (limits : Limits) (secret : Bytes) where
  feed-IsSound :
      (o : Option ℕ) (data_bytes : Bytes) (st : UdpServer)
      → IsSound limits st
      → IsSound limits (feed_stream P o data_bytes st).1
  unfolding feed_stream
  feed-IsSound none data_bytes st v = v
  feed-IsSound (some stream) data_bytes st v =
      other-IsSound limits st (feed_at P stream data_bytes st.streams).1 st.sent st.failures
        st.cookies v

  issue-IsSound :
      (now wall : ℕ) (data_bytes : Bytes) (addr : Addr) (st : UdpServer)
      → IsSound limits st
      → IsSound limits (issue_cookie P limits secret now wall data_bytes addr st).1
  unfolding issue_cookie send_retry
  issue-IsSound now wall data_bytes addr st v =
      let limited : Bool × Buckets = allow_udp_cookie addr.0 now st.cookies in
      let st' : UdpServer = record st { cookies = limited.1 } in
      let v' : IsSound limits st' =
        other-IsSound limits st st.streams st.sent st.failures limited.1 v in
      elim (Bool-cases limited.0) [
        | inl e ↦ rw e (
            then_sendto-IsSound limits
              (sendto_addr (plain_utack (get_or data_bytes 3 0) (unpack_u32 data_bytes 4)) addr st')
              (encode_frame hello_retry
                (cookie_for P limits secret addr (decimal (time_bucket wall))) 0 2)
              addr
              (sendto-IsSound limits (plain_utack (get_or data_bytes 3 0) (unpack_u32 data_bytes 4))
                addr st' v'))
        | inr e ↦ rw e v'
      ]

  start-IsSound :
      (now : ℕ) (data_bytes : Bytes) (addr : Addr) (st : UdpServer)
      → AreBytes data_bytes
      → may_start P limits secret now addr st ≡ true
      → IsSound limits st
      → IsSound limits (start_handshake P limits secret data_bytes addr st).1
  unfolding start_handshake may_start
  start-IsSound now data_bytes addr st bytes may v =
      let few : (value_of addr.0 st.in_progress < 3)
          × (length st.handshakes < limits.max_connections * 2) =
        ground arith in
      let stream : ℕ = length st.streams in
      rw (feed_packet-ok P data_bytes bytes new_stream) (record {
        tasks = put-TasksFit addr stream st.in_progress st.waiting few.0 v.tasks;
        handshakes_bound = omega (arith, few.1, length-put addr_key addr stream st.handshakes);
        sessions_fit = v.sessions_fit;
        handshakes_served = put-AreServed addr stream st.handshakes st.waiting v.handshakes_served;
        sessions_served = v.sessions_served;
      })

  new-IsSound :
      (now wall : ℕ) (data_bytes : Bytes) (addr : Addr) (st : UdpServer)
      → AreBytes data_bytes
      → IsSound limits st
      → IsSound limits (new_handshake P limits secret now wall data_bytes addr st).1
  unfolding new_handshake
  new-IsSound now wall data_bytes addr st bytes v = elim (Bool-cases (length data_bytes == 50)) [
    | inl e ↦ rw e (issue-IsSound now wall data_bytes addr st v)
    | inr e ↦
        elim (Bool-cases (
          (length data_bytes == 66)
          && (is_valid_cookie P limits secret wall (drop 50 data_bytes) addr
              && may_start P limits secret now addr st))) [
                | inl begins ↦
                    rw (e, begins)
                      (start-IsSound now data_bytes addr st bytes (ground (arith, begins)) v)
                | inr stays ↦ rw (e, stays) v
              ]
  ]

  packet-IsSound :
      (o : Option ℕ) (now wall : ℕ) (data_bytes : Bytes) (addr : Addr) (st : UdpServer)
      → AreBytes data_bytes
      → IsSound limits st
      → IsSound limits (handshake_packet P limits secret o now wall data_bytes addr st).1
  packet-IsSound (some stream) now wall data_bytes addr st bytes v =
      feed-IsSound (some stream) data_bytes st v
  packet-IsSound none now wall data_bytes addr st bytes v =
      elim (Bool-cases (is_hello (packet_type data_bytes))) [
        | inl e ↦ rw e (new-IsSound now wall data_bytes addr st bytes v)
        | inr e ↦ rw e v
      ]

  datagram-IsSound :
      (now wall : ℕ) (data_bytes : Bytes) (addr : Addr) (st : UdpServer)
      → AreBytes data_bytes
      → IsSound limits st
      → IsSound limits (handle_udp_datagram P limits secret now wall data_bytes addr st).1
  unfolding handle_udp_datagram
  datagram-IsSound now wall data_bytes addr st bytes v =
      let held : Option ℕ = get addr_key addr st.handshakes in
      elim (Bool-cases (is_handshake_packet (packet_type data_bytes))) [
        | inl e ↦ rw e (packet-IsSound held now wall data_bytes addr st bytes v)
        | inr e ↦
            rw e (feed-IsSound (first_of held (get addr_key addr st.sessions)) data_bytes st v)
      ]

  UdpStep-IsSound :
      {s t : UdpServer} → UdpStep P limits secret s t → IsSound limits s → IsSound limits t
  UdpStep-IsSound (datagram now wall data_bytes addr st bytes) v =
      datagram-IsSound now wall data_bytes addr st bytes v
  UdpStep-IsSound (established addr stream before after st at room) v =
      established-IsSound limits addr stream before after st at room v
  UdpStep-IsSound (rejected addr stream before after st at full) v =
      rejected-IsSound limits addr stream before after st at full v
  UdpStep-IsSound (failed now none addr stream before after st at) v =
      failed-IsSound limits addr stream before after st at v
  UdpStep-IsSound (failed now (some e) addr stream before after st at) v =
      failed-IsSound limits addr stream before after (note_error addr.0 now (some e) st) at
        (note_error-IsSound limits addr.0 now (some e) st v)
  UdpStep-IsSound (stopped st) v = stopped-IsSound limits st v
  UdpStep-IsSound (ended now none addr stream before after st at) v =
      finished-IsSound limits addr stream before after st at v
  UdpStep-IsSound (ended now (some e) addr stream before after st at) v =
      finished-IsSound limits addr stream before after (note_error addr.0 now (some e) st) at
        (note_error-IsSound limits addr.0 now (some e) st v)
  UdpStep-IsSound (streamed streams failures st h) v =
      other-IsSound limits st streams st.sent failures st.cookies v

  reach-IsSound : {s : UdpServer} → UdpReach P limits secret s → IsSound limits s
  reach-IsSound start = fresh-IsSound limits
  reach-IsSound (next r step) = UdpStep-IsSound step (reach-IsSound r)

  -- Whatever datagrams arrive at a new server and however the tasks of its UDP connections go on,
  -- the sessions stay within the global limit and the limit for each address, the handshakes within
  -- twice the global limit, and no address has more than three handshakes in progress; the counts
  -- are the numbers of waiting tasks, and empty without such tasks; and every entry of the two
  -- dictionaries belongs to a task that still runs.
  pub udp_slots :
      (st : UdpServer)
      → UdpReach P limits secret st
      → (length st.sessions ≤ limits.max_connections)
        × (length st.handshakes ≤ limits.max_connections * 2)
        × ((ip : Bytes)
            → (sessions_of ip st.sessions ≤ limits.max_connections_per_ip)
              × (occurs ip (ips st.waiting) ≤ 3)
              × (value_of ip st.in_progress ≡ occurs ip (ips st.waiting)))
        × (st.waiting ≡ [] → st.in_progress ≡ [])
        × ((addr : Addr) (stream : ℕ)
            → (get addr_key addr st.handshakes ≡ some stream
                → has_task addr stream st.waiting ≡ true)
              × (get addr_key addr st.sessions ≡ some stream
                  → has_task addr stream st.serving ≡ true))
  udp_slots st r =
      let v = reach-IsSound r in
      (
        v.sessions_fit.all,
        v.handshakes_bound,
        λ ip. (v.sessions_fit.each ip, v.tasks.each ip, v.tasks.counted.exact ip),
        λ e. Counted-empty st.in_progress (rw (← ap ips e) v.tasks.counted),
        λ addr stream. (v.handshakes_served.live addr stream, v.sessions_served.live addr stream),
      )
