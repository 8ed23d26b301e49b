-- ===== src/Udp/Acks.antt =====
-- Acknowledgements, and the wait for a session frame.
use usmp.Prelude.{
  ℕ, ◌^◌, ◌≤◌, ◌<◌, ◌≡◌, ◌∙◌, ap, refl, if_true, if_false, Bool, true, false, ◌&&◌, ◌||◌, ◌==◌,
  Option, some, ◌++◌, Bytes, length, get_or, leb_of_le, ==_refl, bytes_eq_refl, take_all,
  length-take, arith,
}
use usmp.Errors.{◌>>=◌, Result, ok, err}
use usmp.Struct.{unpack_u32}
use usmp.Struct.Laws.{u32_digits}
use usmp.Crypto.Backend.{Primitives, PrimitiveLaws}
use usmp.Udp.{
  UdpStream, utack_mac, build_utack, send_built, extend_buffer, buffer_frame, feed_frame,
  feed_utack, feed_packet, is_authentic, is_pending, is_utack,
}
use usmp.Udp.Feed.{utack_header, build_utack-eq}

module _ (P : Primitives) where
  send_built_ack :
      (built : Result Bytes) (s : UdpStream)
      → (send_built P built s).1.ack_received ≡ s.ack_received
  send_built_ack (ok utack) s = refl
  send_built_ack (err e) s = refl

  extend_buffer_ack :
      (data_bytes : Bytes) (built : Result Bytes) (s : UdpStream)
      → (extend_buffer P data_bytes (send_built P built s)).1.ack_received ≡ s.ack_received
  extend_buffer_ack data_bytes (ok utack) s = refl
  extend_buffer_ack data_bytes (err e) s = refl

  feed_frame_ack :
      (data_bytes : Bytes) (s : UdpStream)
      → (feed_frame P data_bytes s).1.ack_received ≡ s.ack_received
  unfolding feed_frame buffer_frame
  feed_frame_ack data_bytes s =
      let built : Result Bytes =
        build_utack P (get_or data_bytes 3 0) (unpack_u32 data_bytes 4) s.rx_key in
      ground (
        arith,
        send_built_ack built s,
        extend_buffer_ack data_bytes built s,
        extend_buffer_ack data_bytes built
            (record s { last_rx_type = some (get_or data_bytes 3 0) }),
      )

  -- If a datagram ends the wait for the acknowledgement of a session frame, its MAC is the one that
  -- the stream's own sending key gives, and it names the frame's type and sequence number.
  pub feed_packet_authentic :
      (data_bytes : Bytes) (s : UdpStream) (type : ℕ)
      → s.ack_received ≡ false
      → s.pending_send_type ≡ some type
      → 5 ≤ type
      → (feed_packet P data_bytes s).1.ack_received ≡ true
      → (is_authentic P data_bytes s.tx_key ≡ true)
        × (get_or data_bytes 2 0 ≡ type)
        × (is_pending (unpack_u32 data_bytes 3) s.pending_send_seq ≡ true)
  unfolding feed_packet feed_utack
  feed_packet_authentic data_bytes s type waiting pending session h =
      ground (arith, feed_frame_ack data_bytes s)

  -- An acknowledgement of the session frame with this type and sequence number, under the key.
  abbrev pub is_ack_for : Option Bytes → ℕ → ℕ → Bytes → Bool
  is_ack_for key type seq data_bytes =
      is_utack data_bytes
      && (is_authentic P data_bytes key
          && ((get_or data_bytes 2 0 == type) && (unpack_u32 data_bytes 3 == seq)))

  -- A datagram ends the wait exactly if it is such an acknowledgement.
  pub feed_packet_ack :
      (data_bytes : Bytes) (s : UdpStream) (type seq : ℕ)
      → s.closed ≡ false
      → s.pending_send_type ≡ some type
      → s.pending_send_seq ≡ some seq
      → 5 ≤ type
      → (feed_packet P data_bytes s).1.ack_received
        ≡ (s.ack_received || is_ack_for s.tx_key type seq data_bytes)
  unfolding feed_packet feed_utack
  feed_packet_ack data_bytes s type seq unclosed pending numbered session =
      ground (arith, feed_frame_ack data_bytes s)

module _ (P : Primitives) (laws : PrimitiveLaws P) (type seq : ℕ) (key : Bytes) (hs : seq < 2 ^ 32)
    (session : 5 ≤ type) where
  abbrev acknowledgement : Bytes
  acknowledgement = utack_header type seq ++ utack_mac P key (utack_header type seq)

  mac_size : length (utack_mac P key (utack_header type seq)) ≡ 8
  unfolding utack_mac
  mac_size = omega (
    arith,
    length-take {0} 8 (P.hmac_sha256 key (utack_header type seq)),
    laws.length-hmac key (utack_header type seq),
  )

  acknowledgement_authentic : is_authentic P acknowledgement (some key) ≡ true
  unfolding is_authentic
  acknowledgement_authentic =
      rw
        (
          take_all (utack_mac P key (utack_header type seq)) 8 (omega (arith, mac_size)),
          bytes_eq_refl (utack_mac P key (utack_header type seq)),
          mac_size,
        )
        refl

  acknowledgement_feeds :
      (s : UdpStream)
      → feed_utack P acknowledgement (record s {
        tx_key = some key;
        pending_send_seq = some seq;
        pending_send_type = some type;
      })
        ≡ (record s {
          tx_key = some key;
          pending_send_seq = some seq;
          pending_send_type = some type;
          ack_received = true;
        })
  unfolding feed_utack
  acknowledgement_feeds s =
      rw
        (
          leb_of_le 5 type session,
          acknowledgement_authentic,
          u32_digits seq,
          ==_refl seq,
          ==_refl type,
        )
        refl

-- The acknowledgement of a session frame that a peer builds with its receiving key ends the wait of
-- an open stream with the same sending key for that type and sequence number, and changes nothing
-- else.
pub feed_packet-build_utack :
    (P : Primitives)
    → PrimitiveLaws P
    → (type seq : ℕ) (key : Bytes) (s : UdpStream) → seq < 2 ^ 32
    → 5 ≤ type
    → type < 256
    → s.closed ≡ false
    → let waiting = record s {
      tx_key = some key;
      pending_send_seq = some seq;
      pending_send_type = some type;
    } in
      (build_utack P type seq (some key) >>= λ utack. ok (feed_packet P utack waiting))
      ≡ ok (ok tt, record waiting { ack_received = true })
unfolding feed_packet
feed_packet-build_utack P laws type seq key s hs session ht unclosed =
    let built : build_utack P type seq (some key)
        ≡ ok (acknowledgement P laws type seq key hs session) =
      build_utack-eq P type seq (some key) ht hs ∙ rw (leb_of_le 5 type session) refl in
    let is_ack : is_utack (acknowledgement P laws type seq key hs session) ≡ true = ground arith in
    rw built (
      ap ok (
        if_false s.closed _ _ unclosed
        ∙ if_true (is_utack (acknowledgement P laws type seq key hs session)) _ _ is_ack
        ∙ ap (λ fed. (ok tt, fed)) (acknowledgement_feeds P laws type seq key hs session s)))
