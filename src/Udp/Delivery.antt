-- ===== src/Udp/Delivery.antt =====
-- `drain` of a session frame, and the acknowledgement that it waits for.
use usmp.Prelude.{
  ℕ, zero, suc, ◌≤◌, ◌≡◌, ◌∙◌, sym, ap, leb, ◌<◌, ◌^◌, AreBytes, if_true, if_false, refl, Bool,
  true, false, ◌||◌, Option, none, some, List, [], ◌∷◌, Bytes, length, get_or, arith, Bool-cases,
  inl, inr,
}
use usmp.Errors.{Result, ok, err, os_error}
use usmp.Types.{PacketType, type_int, usmp_max_payload}
use usmp.Frame.Wire.{frame_bytes, encode_frame-eq}
use usmp.Struct.{unpack_u32}
use usmp.Crypto.Backend.{Primitives}
use usmp.Udp.{
  UdpStream, write, sendto, is_authentic, build_utack, send_built, extend_buffer, buffer_frame,
  feed_frame, feed_utack, feed_packet, feed_all,
}
use usmp.Udp.Send.{
  write_frame, after_write, drain, attempt, attempts, arriving_first, arriving_rest,
}
use usmp.Udp.Acks.{feed_packet_authentic}

-- What a datagram leaves alone.
record IsKept (s s' : UdpStream) : Type 0 where
  key : s'.tx_key ≡ s.tx_key
  pending : s'.pending_send_type ≡ s.pending_send_type
  arriving : s'.arriving ≡ s.arriving

kept : (s : UdpStream) → IsKept s s
kept s = record { key = refl; pending = refl; arriving = refl }

module _ (P : Primitives) where
  send_built-IsKept : (built : Result Bytes) (s : UdpStream) → IsKept s (send_built P built s).1
  send_built-IsKept (ok utack) s = record { key = refl; pending = refl; arriving = refl }
  send_built-IsKept (err e) s = kept s

  extend_buffer-IsKept :
      (data_bytes : Bytes) (built : Result Bytes) (s : UdpStream)
      → IsKept s (extend_buffer P data_bytes (send_built P built s)).1
  extend_buffer-IsKept data_bytes (ok utack) s = record {
    key = refl;
    pending = refl;
    arriving = refl;
  }
  extend_buffer-IsKept data_bytes (err e) s = kept s

  feed_packet-IsKept :
      (data_bytes : Bytes) (s : UdpStream) → IsKept s (feed_packet P data_bytes s).1
  unfolding feed_packet feed_utack feed_frame buffer_frame
  feed_packet-IsKept data_bytes s =
      let built : Result Bytes =
        build_utack P (get_or data_bytes 3 0) (unpack_u32 data_bytes 4) s.rx_key in
      let typed : UdpStream = record s { last_rx_type = some (get_or data_bytes 3 0) } in
      let a : IsKept s (send_built P built s).1 = send_built-IsKept built s in
      let b : IsKept s (extend_buffer P data_bytes (send_built P built s)).1 =
        extend_buffer-IsKept data_bytes built s in
      let c : IsKept typed (extend_buffer P data_bytes (send_built P built typed)).1 =
        extend_buffer-IsKept data_bytes built typed in
      record {
        key = ground (arith, a.key, b.key, c.key);
        pending = ground (arith, a.pending, b.pending, c.pending);
        arriving = ground (arith, a.arriving, b.arriving, c.arriving);
      }

  -- Whether one of the datagrams is authentic under the key.
  abbrev pub any_authentic : Option Bytes → List Bytes → Bool
  any_authentic key [] = false
  any_authentic key (x ∷ xs) = is_authentic P x key || any_authentic key xs

  feed_all_authentic :
      (xs : List Bytes) (s : UdpStream) (type : ℕ)
      → s.ack_received ≡ false
      → s.pending_send_type ≡ some type
      → 5 ≤ type
      → (feed_all P xs s).ack_received ≡ true
      → any_authentic s.tx_key xs ≡ true
  unfolding feed_all
  feed_all_authentic [] s type waiting pending session h = cc
  feed_all_authentic (x ∷ xs) s type waiting pending session h =
      let s1 : UdpStream = (feed_packet P x s).1 in
      let k : IsKept s s1 = feed_packet-IsKept x s in
      elim (Bool-cases s1.ack_received) [
        | inl acked ↦ rw (feed_packet_authentic P x s type waiting pending session acked).0 refl
        | inr still ↦
            let later : any_authentic s1.tx_key xs ≡ true =
              feed_all_authentic xs s1 type still (k.pending ∙ pending) session h in
            let later' : any_authentic s.tx_key xs ≡ true = rw k.key at later in
            ground (arith, later')
      ]

  feed_all-IsKept : (xs : List Bytes) (s : UdpStream) → IsKept s (feed_all P xs s)
  unfolding feed_all
  feed_all-IsKept [] s = kept s
  feed_all-IsKept (x ∷ xs) s =
      let k : IsKept s (feed_packet P x s).1 = feed_packet-IsKept x s in
      let l : IsKept (feed_packet P x s).1 (feed_all P xs (feed_packet P x s).1) =
        feed_all-IsKept xs (feed_packet P x s).1 in
      record {
        key = l.key ∙ k.key;
        pending = l.pending ∙ k.pending;
        arriving = l.arriving ∙ k.arriving;
      }

  -- Whether one of the datagrams of some attempt is.
  abbrev pub any_arriving : Option Bytes → List (List Bytes) → Bool
  any_arriving key [] = false
  any_arriving key (xs ∷ later) = any_authentic key xs || any_arriving key later

  first-any :
      (key : Option Bytes) (l : List (List Bytes))
      → any_authentic key (arriving_first l) ≡ true
      → any_arriving key l ≡ true
  first-any key [] h = h
  first-any key (xs ∷ later) h = rw h refl

  rest-any :
      (key : Option Bytes) (l : List (List Bytes))
      → any_arriving key (arriving_rest l) ≡ true
      → any_arriving key l ≡ true
  rest-any key [] h = h
  rest-any key (xs ∷ later) h = ground (arith, h)

  -- If sending a session frame in at most `n` attempts returns, an acknowledgement that is authentic
  -- under the stream's sending key has arrived.
  pub attempts_authentic :
      (n : ℕ) (data_bytes : Bytes) (s s' : UdpStream) (type : ℕ)
      → s.ack_received ≡ false
      → s.pending_send_type ≡ some type
      → 5 ≤ type
      → attempts P n data_bytes s ≡ (ok tt, s')
      → any_arriving s.tx_key s.arriving ≡ true
  unfolding attempts attempt
  attempts_authentic zero data_bytes s s' type waiting pending session h = cc
  attempts_authentic (suc n) data_bytes s s' type waiting pending session h =
      let s0 : UdpStream = sendto data_bytes (record s { arriving = arriving_rest s.arriving }) in
      let s1 : UdpStream = feed_all P (arriving_first s.arriving) s0 in
      let k : IsKept s0 s1 = feed_all-IsKept (arriving_first s.arriving) s0 in
      elim (Bool-cases s1.ack_received) [
        | inl acked ↦
            first-any s.tx_key s.arriving
              (feed_all_authentic (arriving_first s.arriving) s0 type waiting pending session acked)
        | inr still ↦
            let later : any_arriving s1.tx_key s1.arriving ≡ true =
              attempts_authentic n data_bytes s1 s' type still (k.pending ∙ pending) session
                (sym (if_false s1.ack_received _ _ still) ∙ h) in
            rest-any s.tx_key s.arriving (rw (k.key, k.arriving) at later)
      ]

  -- If `write_frame` of a session frame in range returns on a UDP stream, an acknowledgement that
  -- is authentic under the stream's sending key has arrived during one of the attempts.
  pub write_frame_authentic :
      (t : PacketType) (payload : Bytes) (seq : ℕ) (s s' : UdpStream)
      → length payload ≤ usmp_max_payload
      → seq < 2 ^ 32
      → AreBytes payload
      → 5 ≤ type_int t
      → write_frame P t payload seq s ≡ (ok tt, s')
      → any_arriving s.tx_key s.arriving ≡ true
  unfolding write_frame write drain
  write_frame_authentic t payload seq s s' hl hs hb session h =
      let written : after_write P (write (frame_bytes t seq payload) s) ≡ (ok tt, s') =
        rw (encode_frame-eq t payload seq hl hs hb) at h in
      let long : leb 8 (length (frame_bytes t seq payload)) ≡ true = ground arith in
      elim (Bool-cases s.closed) [
        | inl shut ↦
            let failed : after_write P (write (frame_bytes t seq payload) s) ≡ (err os_error, s) =
              ap (after_write P) (if_true s.closed _ _ shut) in
            cc (failed, written)
        | inr unclosed ↦
            let pending : UdpStream = record s {
              pending_send_data = some (frame_bytes t seq payload);
              pending_send_type = some (type_int t);
              pending_send_seq = some (unpack_u32 (frame_bytes t seq payload) 4);
            } in
            let went : write (frame_bytes t seq payload) s ≡ (ok tt, pending) =
              if_false s.closed _ _ unclosed
              ∙ if_true (leb 8 (length (frame_bytes t seq payload))) _ _ long in
            attempts_authentic 5 (frame_bytes t seq payload)
              (record pending { pending_send_data = none; ack_received = false }) s' (type_int t)
              refl refl session (sym (ap (after_write P) went) ∙ written)
      ]
