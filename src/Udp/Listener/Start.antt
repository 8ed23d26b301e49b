-- ===== src/Udp/Listener/Start.antt =====
-- When a datagram starts a handshake.
use usmp.Prelude.{
  ℕ, ◌*◌, ◌<◌, ◌≡◌, ◌⊎◌, ◌∙◌, refl, Bool, true, false, ◌&&◌, Option, none, some, ◌∷◌, Bytes, length,
  drop, get_or, ◌==◌, arith, Bool-cases, inl, inr,
}
use usmp.Prelude.Dict.{get}
use usmp.Errors.{Result, ok, err}
use usmp.Types.{hello_retry}
use usmp.Struct.{unpack_u32}
use usmp.Frame.{encode_frame}
use usmp.Crypto.Backend.{Primitives}
use usmp.Handshake.Limiter.{is_locked}
use usmp.Server.{Limits, value_of}
use usmp.Server.Cookie.{allow_udp_cookie}
use usmp.Udp.Listener.Decimal.{decimal}
use usmp.Udp.Listener.{
  UdpServer, started, first_of, is_hello, is_handshake_packet, packet_type, time_bucket,
  plain_utack, sendto_addr, then_sendto, feed_stream, cookie_for, send_retry, issue_cookie,
  is_valid_cookie, with_task, start_handshake, may_start, new_handshake, handshake_packet,
  handle_udp_datagram,
}
use usmp.Udp.Listener.Addresses.{Addr, addr_key}

sendto-waiting :
    (packet : Result Bytes) (addr : Addr) (st : UdpServer)
    → (sendto_addr packet addr st).1.waiting ≡ st.waiting
sendto-waiting (ok packet) addr st = refl
sendto-waiting (err e) addr st = refl

then_sendto-waiting :
    (first : Result (Unit {0}) × UdpServer) (packet : Result Bytes) (addr : Addr)
    → (then_sendto first packet addr).1.waiting ≡ first.1.waiting
then_sendto-waiting (ok u, st) packet addr = sendto-waiting packet addr st
then_sendto-waiting (err e, st) packet addr = refl

module _ (P : Primitives) (limits : Limits) (secret : Bytes) where
  feed-waiting :
      (o : Option ℕ) (data_bytes : Bytes) (st : UdpServer)
      → (feed_stream P o data_bytes st).1.waiting ≡ st.waiting
  unfolding feed_stream
  feed-waiting none data_bytes st = refl
  feed-waiting (some stream) data_bytes st = refl

  retry-waiting :
      (wall : ℕ) (data_bytes : Bytes) (addr : Addr) (st : UdpServer)
      → (send_retry P limits secret wall data_bytes addr st).1.waiting ≡ st.waiting
  unfolding send_retry
  retry-waiting wall data_bytes addr st =
      let utack : Result Bytes = plain_utack (get_or data_bytes 3 0) (unpack_u32 data_bytes 4) in
      let retry : Result Bytes =
        encode_frame hello_retry (cookie_for P limits secret addr (decimal (time_bucket wall))) 0
          2 in
      then_sendto-waiting (sendto_addr utack addr st) retry addr ∙ sendto-waiting utack addr st

  issue-waiting :
      (now wall : ℕ) (data_bytes : Bytes) (addr : Addr) (st : UdpServer)
      → (issue_cookie P limits secret now wall data_bytes addr st).1.waiting ≡ st.waiting
  unfolding issue_cookie
  issue-waiting now wall data_bytes addr st =
      elim (Bool-cases (allow_udp_cookie addr.0 now st.cookies).0) [
        | inl e ↦ rw e (
            retry-waiting wall data_bytes addr
              (record st { cookies = (allow_udp_cookie addr.0 now st.cookies).1 }))
        | inr e ↦ rw e refl
      ]

  with_task-waiting :
      (addr : Addr) (stream : ℕ) (r : Result (Unit {0}) × UdpServer)
      → ((with_task P limits secret addr stream r).1.waiting ≡ r.1.waiting)
        ⊎ ((with_task P limits secret addr stream r).1.waiting ≡ (addr, stream) ∷ r.1.waiting)
  with_task-waiting addr stream (ok u, st) = inr refl
  with_task-waiting addr stream (err e, st) = inl refl

  -- What a datagram that starts a handshake has passed.
  pub record IsAdmitted (now wall : ℕ) (data_bytes : Bytes) (addr : Addr) (st : UdpServer)
      : Type 0 where
    pub size : length data_bytes ≡ 66
    pub cookie : is_valid_cookie P limits secret wall (drop 50 data_bytes) addr ≡ true
    pub unlocked : is_locked addr.0 now st.failures ≡ false
    pub few : value_of addr.0 st.in_progress < 3
    pub room : length st.handshakes < limits.max_connections * 2

  -- The tasks afterwards: the same, or one more for an admitted datagram.
  abbrev pub StartsOrNot : ℕ → ℕ → Bytes → Addr → UdpServer → UdpServer → Type 0
  StartsOrNot now wall data_bytes addr st st' =
      (st'.waiting ≡ st.waiting)
      ⊎ (IsAdmitted now wall data_bytes addr st
          × (get addr_key addr st.handshakes ≡ none)
          × (st'.waiting ≡ (addr, length st.streams) ∷ st.waiting))

  new-IsAdmitted :
      (now wall : ℕ) (data_bytes : Bytes) (addr : Addr) (st : UdpServer)
      → ((length data_bytes == 66)
          && (is_valid_cookie P limits secret wall (drop 50 data_bytes) addr
              && may_start P limits secret now addr st))
        ≡ true
      → IsAdmitted now wall data_bytes addr st
  unfolding may_start
  new-IsAdmitted now wall data_bytes addr st h = record {
    size = ground arith;
    cookie = ground arith;
    unlocked = ground arith;
    few = ground arith;
    room = ground arith;
  }

  start_or_not :
      (now wall : ℕ) (data_bytes : Bytes) (addr : Addr) (st : UdpServer)
      → get addr_key addr st.handshakes ≡ none
      → IsAdmitted now wall data_bytes addr st
      → StartsOrNot now wall data_bytes addr st
          (start_handshake P limits secret data_bytes addr st).1
  unfolding start_handshake
  start_or_not now wall data_bytes addr st absent admitted =
      elim (with_task-waiting addr (length st.streams)
        (started P limits secret data_bytes addr st)) [
          | inl e ↦ inl e
          | inr e ↦ inr (admitted, absent, e)
        ]

  new_or_not :
      (now wall : ℕ) (data_bytes : Bytes) (addr : Addr) (st : UdpServer)
      → get addr_key addr st.handshakes ≡ none
      → StartsOrNot now wall data_bytes addr st
          (new_handshake P limits secret now wall data_bytes addr st).1
  unfolding new_handshake
  new_or_not now wall data_bytes addr st absent =
      let may : Bool =
        (length data_bytes == 66)
        && (is_valid_cookie P limits secret wall (drop 50 data_bytes) addr
            && may_start P limits secret now addr st) in
      elim (Bool-cases (length data_bytes == 50)) [
        | inl e ↦ rw e (inl (issue-waiting now wall data_bytes addr st))
        | inr e ↦ elim (Bool-cases may) [
          | inl begins ↦
              rw (e, begins)
                (start_or_not now wall data_bytes addr st absent
                  (new-IsAdmitted now wall data_bytes addr st begins))
          | inr stays ↦ rw (e, stays) (inl refl)
        ]
      ]

  packet_or_not :
      (o : Option ℕ) (now wall : ℕ) (data_bytes : Bytes) (addr : Addr) (st : UdpServer)
      → get addr_key addr st.handshakes ≡ o
      → StartsOrNot now wall data_bytes addr st
          (handshake_packet P limits secret o now wall data_bytes addr st).1
  packet_or_not (some stream) now wall data_bytes addr st h =
      inl (feed-waiting (some stream) data_bytes st)
  packet_or_not none now wall data_bytes addr st h =
      elim (Bool-cases (is_hello (packet_type data_bytes))) [
        | inl e ↦ rw e (new_or_not now wall data_bytes addr st h)
        | inr e ↦ rw e (inl refl)
      ]

  -- A datagram leaves the waiting tasks as they are, or it has 66 bytes of which the last 16 are
  -- the cookie of its address in this interval or the one before, its address has no handshake, is
  -- not locked out and has fewer than three in progress, the server has fewer handshakes than twice
  -- its limit on connections, and one task is added.
  pub handshake_starts :
      (now wall : ℕ) (data_bytes : Bytes) (addr : Addr) (st : UdpServer)
      → StartsOrNot now wall data_bytes addr st
          (handle_udp_datagram P limits secret now wall data_bytes addr st).1
  unfolding handle_udp_datagram
  handshake_starts now wall data_bytes addr st =
      let held : Option ℕ = get addr_key addr st.handshakes in
      elim (Bool-cases (is_handshake_packet (packet_type data_bytes))) [
        | inl e ↦ rw e (packet_or_not held now wall data_bytes addr st refl)
        | inr e ↦
            rw e (inl (feed-waiting (first_of held (get addr_key addr st.sessions)) data_bytes st))
      ]
