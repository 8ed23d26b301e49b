-- ===== src/Udp/Listener/Hello.antt =====
-- A HELLO that starts a handshake, and the first frame that the handshake reads.
use usmp.Prelude.{
  ℕ, ◌^◌, ◌<◌, ◌≡◌, ◌∙◌, refl, Bool, true, false, none, some, [], ◌∷◌, ◌++◌, Bytes, length, drop,
  arith,
}
use usmp.Prelude.Dict.{get}
use usmp.Errors.{ok}
use usmp.Types.{hello}
use usmp.Frame.{read_frame}
use usmp.Frame.Wire.{frame_bytes}
use usmp.Frame.RoundTrip.{sent_frame}
use usmp.Crypto.Backend.{Primitives}
use usmp.Server.{Limits}
use usmp.Udp.{UdpStream, is_duplicate, feed_packet, readexactly}
use usmp.Udp.Frames.{read_frame-feed_first}
use usmp.Udp.Listener.{
  UdpServer, new_stream, packet_type, is_valid_cookie, may_start, new_handshake, start_handshake,
  handle_udp_datagram,
}
use usmp.Udp.Listener.Addresses.{Addr, addr_key}

new_is_fresh : is_duplicate true none 1 ≡ false
unfolding is_duplicate
new_is_fresh = refl

module _ (P : Primitives) (limits : Limits) (secret : Bytes) where
  pub first_hello :
      (now wall : ℕ) (data_bytes : Bytes) (addr : Addr) (st : UdpServer)
      → packet_type data_bytes ≡ some 1
      → get addr_key addr st.handshakes ≡ none
      → handle_udp_datagram P limits secret now wall data_bytes addr st
        ≡ new_handshake P limits secret now wall data_bytes addr st
  unfolding handle_udp_datagram
  first_hello now wall data_bytes addr st ht hh = rw (ht, hh, ht) refl

module _ (P : Primitives) (limits : Limits) (secret : Bytes) (now wall seq : ℕ) (payload : Bytes)
    (addr : Addr) (st : UdpServer) (hs : seq < 2 ^ 32) (size : length payload ≡ 54) where
  abbrev pub datagram : Bytes
  datagram = frame_bytes hello seq payload

  is_hello_frame : packet_type datagram ≡ some 1
  unfolding packet_type
  is_hello_frame = ground (arith, size)

  starts :
      is_valid_cookie P limits secret wall (drop 50 datagram) addr ≡ true
      → may_start P limits secret now addr st ≡ true
      → new_handshake P limits secret now wall datagram addr st
        ≡ start_handshake P limits secret datagram addr st
  unfolding new_handshake
  starts valid may = rw (size, valid, may) refl

  -- A HELLO frame of 54 bytes of payload that ends with a cookie that is valid now, from an address
  -- without a handshake, starts one if the limits admit it: a task is added for a new stream, and
  -- the first frame that `read_frame` takes from that stream is the HELLO.
  pub hello_is_read :
      (verify_crc : Bool)
      → get addr_key addr st.handshakes ≡ none
      → is_valid_cookie P limits secret wall (drop 50 datagram) addr ≡ true
      → may_start P limits secret now addr st ≡ true
      → let (result, st') = handle_udp_datagram P limits secret now wall datagram addr st in
        (result ≡ ok tt)
        × (st'.waiting ≡ (addr, length st.streams) ∷ st.waiting)
        × (stream : UdpStream) × (rest : UdpStream) × (st'.streams ≡ st.streams ++ stream ∷ [])
        × (read_frame readexactly verify_crc stream
            ≡ some (ok (sent_frame hello seq payload), rest))
  unfolding start_handshake
  hello_is_read verify_crc absent valid may =
      let (fed, rest, reads) =
        read_frame-feed_first P hello seq payload verify_crc new_stream hs (omega (arith, size))
          refl refl new_is_fresh in
      let step : handle_udp_datagram P limits secret now wall datagram addr st
          ≡ start_handshake P limits secret datagram addr st =
        first_hello P limits secret now wall datagram addr st is_hello_frame absent
        ∙ starts valid may in
      rw (step, fed) (refl, refl, (feed_packet P datagram new_stream).1, rest, refl, reads)
