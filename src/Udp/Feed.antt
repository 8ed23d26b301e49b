-- ===== src/Udp/Feed.antt =====
-- `feed_packet` on any datagram.
use usmp.Prelude.{
  ℕ, ◌+◌, ◌^◌, ◌%◌, ◌/◌, ltb_of_lt, ◌≤◌, ◌<◌, ◌≡◌, refl, Option, some, Bytes, AreBytes, length,
  get_or, length-append, ltb, arith, Bool-cases, inl, inr, le_of_ltb, [], ◌∷◌, List,
}
use usmp.Errors.{Result, ok, err}
use usmp.Struct.{unpack_u32}
use usmp.Struct.Laws.{pack_u32_lt}
use usmp.Frame.Failures.{get_or-lt}
use usmp.Crypto.Backend.{Primitives}
use usmp.Udp.{
  UdpStream, max_read_buffer, build_utack, send_utack, send_built, extend_buffer, buffer_frame,
  feed_frame, feed_utack, feed_packet, feed_all, sendto, with_mac,
}

-- How a step that may raise ends, when it does not.
abbrev pub finished : UdpStream → Result (Unit {0}) × UdpStream
finished s = (ok tt, s)

-- The header of an acknowledgement.
abbrev pub utack_header : ℕ → ℕ → Bytes
utack_header type seq =
    0xac ∷ 0xac ∷ type ∷ seq % 256 ∷ seq / 256 % 256 ∷ seq / 65536 % 256 ∷ seq / 16777216 ∷ []

pub build_utack-eq :
    (P : Primitives) (type seq : ℕ) (key : Option Bytes)
    → type < 256
    → seq < 2 ^ 32
    → build_utack P type seq key ≡ ok (with_mac P type key (utack_header type seq))
unfolding build_utack
build_utack-eq P type seq key ht hs = rw (ltb_of_lt type 256 ht, pack_u32_lt seq hs) refl

pub unpack_u32-lt : (bytes : Bytes) (i : ℕ) → AreBytes bytes → unpack_u32 bytes i < 2 ^ 32
unpack_u32-lt bytes i h = omega (
  arith,
  get_or-lt bytes i h,
  get_or-lt bytes (i + 1) h,
  get_or-lt bytes (i + 2) h,
  get_or-lt bytes (i + 3) h,
)

module _ (P : Primitives) (data_bytes : Bytes) (hb : AreBytes data_bytes) where
  abbrev type : ℕ
  type = get_or data_bytes 3 0

  abbrev seq : ℕ
  seq = unpack_u32 data_bytes 4

  -- The acknowledgement of a frame goes out.
  pub send_utack-eq :
      (s : UdpStream)
      → send_utack P type seq s
        ≡ (ok tt, sendto (with_mac P type s.rx_key (utack_header type seq)) s)
  send_utack-eq s =
      rw
        (build_utack-eq P type seq s.rx_key (get_or-lt data_bytes 3 hb)
          (unpack_u32-lt data_bytes 4 hb))
        refl

  buffer_frame-ok : (s : UdpStream) → (buffer_frame P data_bytes s).0 ≡ ok tt
  unfolding buffer_frame
  buffer_frame-ok s = rw (send_utack-eq s) (ground arith)

  -- On bytes, `feed_packet` raises nothing.
  pub feed_packet-ok : (s : UdpStream) → (feed_packet P data_bytes s).0 ≡ ok tt
  unfolding feed_packet feed_frame
  feed_packet-ok s =
      rw (send_utack-eq s)
        (ground (arith, buffer_frame-ok s, buffer_frame-ok (record s { last_rx_type = some type })))

module _ (P : Primitives) where
  send_built_buffer :
      (built : Result Bytes) (s : UdpStream) → (send_built P built s).1.read_buffer ≡ s.read_buffer
  send_built_buffer (ok utack) s = refl
  send_built_buffer (err e) s = refl

  extend_buffer_bound :
      (data_bytes : Bytes) (built : Result Bytes) (s : UdpStream)
      → length s.read_buffer + length data_bytes ≤ max_read_buffer
      → length (extend_buffer P data_bytes (send_built P built s)).1.read_buffer ≤ max_read_buffer
  extend_buffer_bound data_bytes (ok utack) s h =
      omega (arith, length-append {0} s.read_buffer data_bytes)
  extend_buffer_bound data_bytes (err e) s h = omega arith

  buffer_frame_bound :
      (data_bytes : Bytes) (s : UdpStream)
      → length s.read_buffer ≤ max_read_buffer
      → length (buffer_frame P data_bytes s).1.read_buffer ≤ max_read_buffer
  unfolding buffer_frame
  buffer_frame_bound data_bytes s h =
      elim (Bool-cases (ltb max_read_buffer (length s.read_buffer + length data_bytes))) [
        | inl full ↦ rw full h
        | inr room ↦ rw room (
            extend_buffer_bound data_bytes
              (build_utack P (get_or data_bytes 3 0) (unpack_u32 data_bytes 4) s.rx_key) s
              (le_of_ltb _ _ room))
      ]

  feed_utack_buffer :
      (data_bytes : Bytes) (s : UdpStream) → (feed_utack P data_bytes s).read_buffer ≡ s.read_buffer
  unfolding feed_utack
  feed_utack_buffer data_bytes s = ground arith

  feed_packet_bound :
      (data_bytes : Bytes) (s : UdpStream)
      → length s.read_buffer ≤ max_read_buffer
      → length (feed_packet P data_bytes s).1.read_buffer ≤ max_read_buffer
  unfolding feed_packet feed_frame
  feed_packet_bound data_bytes s h = ground (
    arith,
    feed_utack_buffer data_bytes s,
    send_built_buffer (build_utack P (get_or data_bytes 3 0) (unpack_u32 data_bytes 4) s.rx_key) s,
    buffer_frame_bound data_bytes s,
    buffer_frame_bound data_bytes (record s { last_rx_type = some (get_or data_bytes 3 0) }),
  )

  -- Whatever datagrams arrive, a buffer of unread bytes of at most 4096 bytes stays within them.
  pub feed_all_bound :
      (datagrams : List Bytes) (s : UdpStream)
      → length s.read_buffer ≤ max_read_buffer
      → length (feed_all P datagrams s).read_buffer ≤ max_read_buffer
  unfolding feed_all
  feed_all_bound [] s h = h
  feed_all_bound (x ∷ xs) s h = feed_all_bound xs (feed_packet P x s).1 (feed_packet_bound x s h)
