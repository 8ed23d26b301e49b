-- ===== src/Udp/Exchange.antt =====
-- A session frame sent on a UDP stream and what its five attempts bring.
use usmp.Prelude.{
  ℕ, zero, suc, ◌≤◌, ◌<◌, ◌^◌, ◌≡◌, ◌∙◌, ap, refl, leb, AreBytes, if_true, if_false, Bool, true,
  false, ◌||◌, Option, none, some, List, [], ◌∷◌, Bytes, length, get_or, arith, Bool-cases, inl,
  inr, if◌then◌else◌,
}
use usmp.Errors.{Result, ok, err, os_error}
use usmp.Types.{PacketType, type_int, usmp_max_payload}
use usmp.Frame.Wire.{frame_bytes, encode_frame-eq}
use usmp.Struct.{unpack_u32}
use usmp.Struct.Laws.{u32_digits}
use usmp.Crypto.Backend.{Primitives}
use usmp.Udp.{
  UdpStream, write, sendto, build_utack, send_built, extend_buffer, buffer_frame, feed_frame,
  feed_utack, feed_packet, feed_all,
}
use usmp.Udp.Send.{
  write_frame, after_write, drain, attempt, attempts, arriving_first, arriving_rest,
}
use usmp.Udp.Acks.{is_ack_for, feed_packet_ack}

or_assoc : (a b c : Bool) → ((a || b) || c) ≡ (a || (b || c))
or_assoc a b c = ground arith

-- A stream that waits for the acknowledgement of a frame.
record IsWaiting (key : Option Bytes) (type seq : ℕ) (arriving : List (List Bytes)) (s : UdpStream)
    : Type 0 where
  tx_key : s.tx_key ≡ key
  pending_type : s.pending_send_type ≡ some type
  pending_seq : s.pending_send_seq ≡ some seq
  arrives : s.arriving ≡ arriving
  unclosed : s.closed ≡ false

module _ (P : Primitives) (key : Option Bytes) (type seq : ℕ) where
  -- Whether one of the datagrams acknowledges the frame.
  abbrev pub any_ack : List Bytes → Bool
  any_ack [] = false
  any_ack (x ∷ xs) = is_ack_for P key type seq x || any_ack xs

  -- Whether one of the datagrams of the first `n` attempts does.
  abbrev pub any_attempt : ℕ → List (List Bytes) → Bool
  any_attempt zero arriving = false
  any_attempt (suc n) arriving =
      any_ack (arriving_first arriving) || any_attempt n (arriving_rest arriving)

  module _ (session : 5 ≤ type) where
    send_built-IsWaiting :
        (built : Result Bytes) (arriving : List (List Bytes)) (s : UdpStream)
        → IsWaiting key type seq arriving s
        → IsWaiting key type seq arriving (send_built P built s).1
    send_built-IsWaiting (ok utack) arriving s w = record {
      tx_key = w.tx_key;
      pending_type = w.pending_type;
      pending_seq = w.pending_seq;
      arrives = w.arrives;
      unclosed = w.unclosed;
    }
    send_built-IsWaiting (err e) arriving s w = w

    extend_buffer-IsWaiting :
        (data_bytes : Bytes) (built : Result Bytes) (arriving : List (List Bytes)) (s : UdpStream)
        → IsWaiting key type seq arriving s
        → IsWaiting key type seq arriving (extend_buffer P data_bytes (send_built P built s)).1
    extend_buffer-IsWaiting data_bytes (ok utack) arriving s w = record {
      tx_key = w.tx_key;
      pending_type = w.pending_type;
      pending_seq = w.pending_seq;
      arrives = w.arrives;
      unclosed = w.unclosed;
    }
    extend_buffer-IsWaiting data_bytes (err e) arriving s w = w

    feed_packet-IsWaiting :
        (data_bytes : Bytes) (arriving : List (List Bytes)) (s : UdpStream)
        → IsWaiting key type seq arriving s
        → IsWaiting key type seq arriving (feed_packet P data_bytes s).1
    unfolding feed_packet feed_utack feed_frame buffer_frame
    feed_packet-IsWaiting data_bytes arriving s w =
        let built : Result Bytes =
          build_utack P (get_or data_bytes 3 0) (unpack_u32 data_bytes 4) s.rx_key in
        let typed : UdpStream = record s { last_rx_type = some (get_or data_bytes 3 0) } in
        let wt : IsWaiting key type seq arriving typed = record {
          tx_key = w.tx_key;
          pending_type = w.pending_type;
          pending_seq = w.pending_seq;
          arrives = w.arrives;
          unclosed = w.unclosed;
        } in
        let a : IsWaiting key type seq arriving (send_built P built s).1 =
          send_built-IsWaiting built arriving s w in
        let b : IsWaiting key type seq arriving
            (extend_buffer P data_bytes (send_built P built s)).1 =
          extend_buffer-IsWaiting data_bytes built arriving s w in
        let c : IsWaiting key type seq arriving
            (extend_buffer P data_bytes (send_built P built typed)).1 =
          extend_buffer-IsWaiting data_bytes built arriving typed wt in
        record {
          tx_key = ground (arith, w.tx_key, a.tx_key, b.tx_key, c.tx_key);
          pending_type =
              ground (arith, w.pending_type, a.pending_type, b.pending_type, c.pending_type);
          pending_seq = ground (arith, w.pending_seq, a.pending_seq, b.pending_seq, c.pending_seq);
          arrives = ground (arith, w.arrives, a.arrives, b.arrives, c.arrives);
          unclosed = ground (arith, w.unclosed, a.unclosed, b.unclosed, c.unclosed);
        }

    feed_all-IsWaiting :
        (xs : List Bytes) (arriving : List (List Bytes)) (s : UdpStream)
        → IsWaiting key type seq arriving s
        → IsWaiting key type seq arriving (feed_all P xs s)
          × ((feed_all P xs s).ack_received ≡ (s.ack_received || any_ack xs))
    unfolding feed_all
    feed_all-IsWaiting [] arriving s w = (w, ground arith)
    feed_all-IsWaiting (x ∷ xs) arriving s w =
        let s1 : UdpStream = (feed_packet P x s).1 in
        let (w2, acked) =
          feed_all-IsWaiting xs arriving s1 (feed_packet-IsWaiting x arriving s w) in
        let first : s1.ack_received ≡ (s.ack_received || is_ack_for P key type seq x) =
          feed_packet_ack P x s type seq w.unclosed w.pending_type w.pending_seq session
          ∙ ap (λ k. s.ack_received || is_ack_for P k type seq x) w.tx_key in
        (
          w2,
          acked
              ∙ ap (λ b. b || any_ack xs) first
              ∙ or_assoc s.ack_received (is_ack_for P key type seq x) (any_ack xs),
        )

    attempts-any_attempt :
        (n : ℕ) (data_bytes : Bytes) (arriving : List (List Bytes)) (s : UdpStream)
        → IsWaiting key type seq arriving s
        → s.ack_received ≡ false
        → (attempts P n data_bytes s).0 ≡ (if any_attempt n arriving then ok tt else err os_error)
    unfolding attempts attempt
    attempts-any_attempt zero data_bytes arriving s w idle = refl
    attempts-any_attempt (suc n) data_bytes arriving s w idle =
        let s0 : UdpStream = sendto data_bytes (record s { arriving = arriving_rest s.arriving }) in
        let w0 : IsWaiting key type seq (arriving_rest arriving) s0 = record {
          tx_key = w.tx_key;
          pending_type = w.pending_type;
          pending_seq = w.pending_seq;
          arrives = ap arriving_rest w.arrives;
          unclosed = w.unclosed;
        } in
        let xs : List Bytes = arriving_first s.arriving in
        let s1 : UdpStream = feed_all P xs s0 in
        let (w1, acked) = feed_all-IsWaiting xs (arriving_rest arriving) s0 w0 in
        let ended : s1.ack_received ≡ any_ack (arriving_first arriving) =
          acked ∙ ap (λ b. b || any_ack xs) idle ∙ ap (λ l. any_ack (arriving_first l)) w.arrives in
        elim (Bool-cases (any_ack (arriving_first arriving))) [
          | inl e ↦ rw e (
              ap (λ r. r.0)
                (if_true s1.ack_received (ok tt, s1) (attempts P n data_bytes s1) (ended ∙ e)))
          | inr e ↦ rw e (
              ap (λ r. r.0)
                (if_false s1.ack_received (ok tt, s1) (attempts P n data_bytes s1) (ended ∙ e))
              ∙ attempts-any_attempt n data_bytes (arriving_rest arriving) s1 w1 (ended ∙ e))
        ]

-- `write_frame` of a session frame in range on an open UDP stream returns if one of the datagrams
-- that arrive during its five attempts is an acknowledgement that is authentic under the stream's
-- sending key and names the frame's type and sequence number, and else raises `OSError`.
pub write_frame_exact :
    (P : Primitives) (t : PacketType) (payload : Bytes) (seq : ℕ) (s : UdpStream)
    (session : 5 ≤ type_int t)
    → length payload ≤ usmp_max_payload
    → seq < 2 ^ 32
    → AreBytes payload
    → s.closed ≡ false
    → (write_frame P t payload seq s).0
      ≡ (if any_attempt P s.tx_key (type_int t) seq 5 s.arriving then ok tt else err os_error)
unfolding write_frame write drain
write_frame_exact P t payload seq s session hl hs hb unclosed =
    let encoded : Bytes = frame_bytes t seq payload in
    let long : leb 8 (length encoded) ≡ true = ground arith in
    let pending : UdpStream = record s {
      pending_send_data = some encoded;
      pending_send_type = some (type_int t);
      pending_send_seq = some (unpack_u32 encoded 4);
    } in
    let went : write encoded s ≡ (ok tt, pending) =
      if_false s.closed _ _ unclosed ∙ if_true (leb 8 (length encoded)) _ _ long in
    let begun : UdpStream = record pending { pending_send_data = none; ack_received = false } in
    rw (encode_frame-eq t payload seq hl hs hb) (
      ap (λ r. (after_write P r).0) went
      ∙ attempts-any_attempt P s.tx_key (type_int t) seq session 5 encoded s.arriving begun
          (record {
            tx_key = refl;
            pending_type = refl;
            pending_seq = ap some (u32_digits seq);
            arrives = refl;
            unclosed = unclosed;
          })
          refl)
