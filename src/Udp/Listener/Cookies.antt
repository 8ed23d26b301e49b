-- ===== src/Udp/Listener/Cookies.antt =====
-- Cookies: what they are of, and a client that returns its own.
use mathlib.Core.List.{append_assoc}
use usmp.Prelude.{
  ◌⊎◌, le_of_leb, lt_of_leb, suc, ℕ, ◌+◌, ◌*◌, ◌^◌, ◌≤◌, ◌<◌, ◌≡◌, refl, ap, Bool, true, ◌||◌, none,
  some, [], ◌∷◌, ◌++◌, Bytes, AreBytes, bytes_eq, bytes_eq_refl, length, length-append, drop-append,
  length-take, get_or, leb, ltb_of_lt, arith, Bool-cases, inl, inr, AreBytes-append, AreBytes-take,
}
use usmp.Prelude.Dict.{get}
use usmp.Errors.{ok}
use usmp.Types.{hello_retry}
use usmp.Struct.{unpack_u32}
use usmp.Struct.Laws.{pack_u32_lt}
use usmp.Frame.Failures.{get_or-lt}
use usmp.Frame.Wire.{frame_bytes, encode_frame-eq}
use usmp.Crypto.Backend.{Primitives, PrimitiveLaws}
use usmp.Handshake.Limiter.{second}
use usmp.Server.{Limits}
use usmp.Server.Cookie.{allow_udp_cookie}
use usmp.Udp.Feed.{feed_packet-ok, unpack_u32-lt, utack_header}
use usmp.Udp.Listener.Decimal.{decimal}
use usmp.Udp.Listener.{
  UdpServer, new_stream, packet_type, time_bucket, text_before, cookie_message, plain_utack,
  cookie_for, send_retry, issue_cookie, is_valid_cookie, start_handshake, may_start, new_handshake,
  handle_udp_datagram,
}
use usmp.Udp.Listener.Hello.{first_hello}
use usmp.Udp.Listener.Addresses.{Addr, addr_key}

either_true : (b : Bool) → (b || true) ≡ true
either_true b = ground arith

-- The time of a cookie, one interval later at most.
text_of_interval :
    (wall later : ℕ)
    → wall ≤ later
    → later ≤ wall + 30 * second
    → (decimal (time_bucket later) ≡ decimal (time_bucket wall))
      ⊎ (text_before (time_bucket later) ≡ decimal (time_bucket wall))
text_of_interval wall later h soon =
    elim (Bool-cases (leb (time_bucket later) (time_bucket wall))) [
      | inl e ↦
          let same : time_bucket later ≡ time_bucket wall =
            omega (arith, le_of_leb (time_bucket later) (time_bucket wall) e) in
          inl (ap decimal same)
      | inr e ↦
          let next : time_bucket later ≡ suc (time_bucket wall) =
            omega (arith, lt_of_leb (time_bucket later) (time_bucket wall) e) in
          inr (ap text_before next)
    ]

module _ (P : Primitives) (laws : PrimitiveLaws P) (limits : Limits) (secret : Bytes) where
  abbrev cookie_at : ℕ → Addr → Bytes
  cookie_at wall addr = cookie_for P limits secret addr (decimal (time_bucket wall))

  cookie_length : (wall : ℕ) (addr : Addr) → length (cookie_at wall addr) ≡ 16
  unfolding cookie_for
  cookie_length wall addr =
      let whole : Bytes = P.hmac_sha256 secret (cookie_message addr (decimal (time_bucket wall))) in
      omega (
        arith,
        length-take 16 whole,
        laws.length-hmac secret (cookie_message addr (decimal (time_bucket wall))),
      )

  cookie-AreBytes : (wall : ℕ) (addr : Addr) → AreBytes (cookie_at wall addr)
  unfolding cookie_for
  cookie-AreBytes wall addr =
      AreBytes-take 16 (P.hmac_sha256 secret (cookie_message addr (decimal (time_bucket wall))))
        (laws.bytes-hmac secret (cookie_message addr (decimal (time_bucket wall))))

  cookie_is_valid :
      (wall later : ℕ) (addr : Addr)
      → wall ≤ later
      → later ≤ wall + 30 * second
      → is_valid_cookie P limits secret later (cookie_at wall addr) addr ≡ true
  unfolding is_valid_cookie
  cookie_is_valid wall later addr h soon = elim (text_of_interval wall later h soon) [
    | inl e ↦ rw (e, bytes_eq_refl (cookie_at wall addr)) refl
    | inr e ↦
        rw (e, bytes_eq_refl (cookie_at wall addr))
          (either_true (
            bytes_eq (cookie_at wall addr)
              (cookie_for P limits secret addr (decimal (time_bucket later)))))
  ]

  plain_utack-eq :
      (type seq : ℕ) → type < 256 → seq < 2 ^ 32 → plain_utack type seq ≡ ok (utack_header type seq)
  plain_utack-eq type seq ht hs = rw (ltb_of_lt type 256 ht, pack_u32_lt seq hs) refl

  -- The answer to a HELLO without a cookie.
  retry_sent :
      (wall : ℕ) (hello : Bytes) (addr : Addr) (st : UdpServer)
      → AreBytes hello
      → (send_retry P limits secret wall hello addr st).1.sent
        ≡ st.sent
          ++ (utack_header (get_or hello 3 0) (unpack_u32 hello 4), addr)
            ∷ (frame_bytes hello_retry 0 (cookie_at wall addr), addr)
            ∷ []
  unfolding send_retry
  retry_sent wall hello addr st bytes =
      rw
        (
          plain_utack-eq (get_or hello 3 0) (unpack_u32 hello 4) (get_or-lt hello 3 bytes)
              (unpack_u32-lt hello 4 bytes),
          encode_frame-eq hello_retry (cookie_at wall addr) 0
              (omega (arith, cookie_length wall addr)) (omega arith) (cookie-AreBytes wall addr),
        )
        (append_assoc st.sent ((utack_header (get_or hello 3 0) (unpack_u32 hello 4), addr) ∷ [])
          ((frame_bytes hello_retry 0 (cookie_at wall addr), addr) ∷ []))

  hello_answered :
      (now wall : ℕ) (hello : Bytes) (addr : Addr) (st : UdpServer)
      → length hello ≡ 50
      → (allow_udp_cookie addr.0 now st.cookies).0 ≡ true
      → new_handshake P limits secret now wall hello addr st
        ≡ send_retry P limits secret wall hello addr
            (record st { cookies = (allow_udp_cookie addr.0 now st.cookies).1 })
  unfolding new_handshake issue_cookie
  hello_answered now wall hello addr st hl allowed = rw (hl, allowed) refl

  -- A HELLO with a valid cookie.
  cookie_starts :
      (now wall : ℕ) (again cookie : Bytes) (addr : Addr) (st : UdpServer)
      → length again ≡ 50
      → length cookie ≡ 16
      → AreBytes (again ++ cookie)
      → is_valid_cookie P limits secret wall cookie addr ≡ true
      → may_start P limits secret now addr st ≡ true
      → new_handshake P limits secret now wall (again ++ cookie) addr st
        ≡ start_handshake P limits secret (again ++ cookie) addr st
  unfolding new_handshake
  cookie_starts now wall again cookie addr st hl hc hb valid may =
      let size : length (again ++ cookie) ≡ 66 = omega (arith, length-append again cookie) in
      rw (size, drop-append again cookie 50 hl, valid, may) refl

  start_waits :
      (data_bytes : Bytes) (addr : Addr) (st : UdpServer)
      → AreBytes data_bytes
      → ((start_handshake P limits secret data_bytes addr st).0 ≡ ok tt)
        × ((start_handshake P limits secret data_bytes addr st).1.waiting
            ≡ (addr, length st.streams) ∷ st.waiting)
  unfolding start_handshake
  start_waits data_bytes addr st bytes =
      rw (feed_packet-ok P data_bytes bytes new_stream) (refl, refl)

  -- A HELLO of 50 bytes from an address without a handshake, whose bucket has a token, is answered
  -- with its acknowledgement and a HELLO_RETRY that carries the cookie; and at most 30 seconds
  -- later 50 such bytes followed by the cookie, from the same address, start a handshake if the
  -- limits admit it.
  pub cookie_round_trip :
      (now wall : ℕ) (hello : Bytes) (addr : Addr) (st : UdpServer)
      → length hello ≡ 50
      → AreBytes hello
      → packet_type hello ≡ some 1
      → get addr_key addr st.handshakes ≡ none
      → (allow_udp_cookie addr.0 now st.cookies).0 ≡ true
      → (later wall' : ℕ) (again : Bytes) (st' : UdpServer) → wall ≤ wall'
      → wall' ≤ wall + 30 * second
      → length again ≡ 50
      → AreBytes again
      → packet_type (again ++ cookie_at wall addr) ≡ some 1
      → get addr_key addr st'.handshakes ≡ none
      → may_start P limits secret later addr st' ≡ true
      → ((handle_udp_datagram P limits secret now wall hello addr st).1.sent
          ≡ st.sent
            ++ (utack_header (get_or hello 3 0) (unpack_u32 hello 4), addr)
              ∷ (frame_bytes hello_retry 0 (cookie_at wall addr), addr)
              ∷ [])
        × ((handle_udp_datagram P limits secret later wall'
              (again ++ cookie_at wall addr)
              addr
              st').0
            ≡ ok tt)
        × ((handle_udp_datagram P limits secret later wall'
              (again ++ cookie_at wall addr)
              addr
              st').1.waiting
            ≡ (addr, length st'.streams) ∷ st'.waiting)
  cookie_round_trip now wall hello addr st hl hb ht hh allowed later wall' again st' h soon al ab at
        ah may =
      let cookie : Bytes = cookie_at wall addr in
      let whole : AreBytes (again ++ cookie) =
        AreBytes-append again cookie ab (cookie-AreBytes wall addr) in
      let limited : UdpServer = record st {
        cookies = (allow_udp_cookie addr.0 now st.cookies).1;
      } in
      let waits = start_waits (again ++ cookie) addr st' whole in
      let starts =
        cookie_starts later wall' again cookie addr st' al (cookie_length wall addr) whole
          (cookie_is_valid wall wall' addr h soon) may in
      (
        rw
            (
              first_hello P limits secret now wall hello addr st ht hh,
              hello_answered now wall hello addr st hl allowed,
            )
            (retry_sent wall hello addr limited hb),
        rw (first_hello P limits secret later wall' (again ++ cookie) addr st' at ah, starts)
            waits.0,
        rw (first_hello P limits secret later wall' (again ++ cookie) addr st' at ah, starts)
            waits.1,
      )
