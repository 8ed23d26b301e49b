-- ===== src/Session/Delivery/Datagram.antt =====
-- A message of one frame over an unreliable transport.
use usmp.Prelude.{
  ℕ, suc, ◌+◌, ◌*◌, ◌≤◌, ◌<◌, ◌≡◌, refl, true, false, ◌||◌, Option, some, List, [], ◌∷◌, ◌++◌,
  Bytes, length, take, take_all, arith, ltb, ltb_of_le, leb_of_lt, ◌==◌, Bool-cases, inl, inr,
}
use usmp.Errors.{ok}
use usmp.Types.{SessionInfo, data_packet, usmp_max_data_len, usmp_max_frames}
use usmp.Frame.RoundTrip.{sent_frame}
use usmp.Crypto.Backend.{Primitives, PrimitiveLaws}
use usmp.Transport.{Transport}
use usmp.Session.{
  Session, max_seq, frame_nonce, send_encrypted_locked, after_chunk, send_loop, send,
}
use usmp.Session.Window.{is_replay, mark_seen}
use usmp.Session.Window.History.{accept_all}
use usmp.Session.Window.Keeps.{accept_all-refuses}
use usmp.Session.Window.Replay.{mark_seen-is_replay}
use usmp.Session.Receive.{
  Arrival, returned, recv_result, resume, recv_turn, recv_loop, recv, empty_assembly, open_frame,
  accept_frame, handle_frame, handle_data, append_chunk, absorb, opened,
}
use usmp.Session.Delivery.Frame.{Sent, outbox, Sealing, seal-open, after_sent, arrival, send-step}

-- The sender's key is the one that the receiver reads with.
pub record SharesKey (s r : SessionInfo) : Type 0 where
  pub key : s.tx_key ≡ r.rx_key
  pub session : s.session_id ≡ r.session_id
  pub suite : s.cipher_suite ≡ r.cipher_suite
  pub key_size : length s.tx_key ≡ 32
  pub id_size : length s.session_id ≡ 16

module _ (P : Primitives) (laws : PrimitiveLaws P) where
  seal-open_any :
      (chunk : Bytes) (s r : SessionInfo)
      → SharesKey s r
      → s.tx_seq < max_seq
      → length chunk ≤ usmp_max_data_len
      → Sealing P laws data_packet chunk s r
  unfolding open_frame frame_nonce
  seal-open_any chunk s r m room small =
      let level : SessionInfo = record r { rx_seq = s.tx_seq } in
      let sealing : Sealing P laws data_packet chunk s level =
        seal-open P laws true data_packet chunk s level
          (record {
            key = m.key;
            session = m.session;
            suite = m.suite;
            seq = refl;
            key_size = m.key_size;
            id_size = m.id_size;
          })
          room small in
      record { payload = sealing.payload; sealed = sealing.sealed; opens = sealing.opens }

  one_chunk :
      (chunk : Bytes) (s s' : Session (List Sent)) (fuel : ℕ)
      → length chunk ≤ usmp_max_data_len
      → send_encrypted_locked P outbox data_packet chunk s ≡ (ok tt, s')
      → send_loop P outbox (suc (suc fuel)) chunk 0 s ≡ some (ok tt, s')
  unfolding send_loop after_chunk
  one_chunk chunk s s' fuel small sent =
      let all : take usmp_max_data_len chunk ≡ chunk = take_all chunk usmp_max_data_len small in
      let none_more : ltb (0 + length chunk) (length chunk) ≡ false =
        ltb_of_le (0 + length chunk) (length chunk) (omega arith) in
      let entered : (ltb 0 (length chunk) || (length chunk == 0)) ≡ true = ground arith in
      rw (entered, all, none_more, sent)
        (elim (Bool-cases (length chunk == 0)) [
          | inl empty ↦ rw empty refl
          | inr some_sent ↦ rw some_sent refl
        ])

module _ (P : Primitives) {R : Type 0} (tr : Transport R)
    (unreliable : tr.is_reliable ≡ false) where
  -- The receiver afterwards.
  abbrev pub received : Sent → ℕ → Session R → Session R
  received x now r = record r {
    info = mark_seen x.seq r.info;
    last_recv = now;
    transport = tr.confirm_authenticated x.seq r.transport;
  }

  turn_delivers :
      (x : Sent) (chunk : Bytes) (now start : ℕ) (r : Session R)
      → open_frame P (sent_frame x.type x.seq x.payload) r.info ≡ ok chunk
      → x.type ≡ data_packet
      → x.seq < max_seq
      → is_replay x.seq r.info ≡ false
      → recv_turn P tr
          (ok (sent_frame x.type x.seq x.payload))
          (arrival now x)
          (empty_assembly start)
          r
        ≡ returned chunk (received x now r)
  unfolding recv_turn opened accept_frame handle_frame handle_data append_chunk absorb
  turn_delivers x chunk now start r ho ht hm fresh =
      rw (fresh, unreliable, ho, leb_of_lt max_seq x.seq hm, ht) refl

  module _ (laws : PrimitiveLaws P) (chunk : Bytes) (now : ℕ) (s : Session (List Sent))
      (r : Session R) where
    -- What the message becomes.
    pub record Datagram : Type 0 where
      pub frame : Sent
      pub sender : Session (List Sent)
      pub sends : send P outbox chunk s ≡ some (ok tt, sender)
      pub wrote : sender.transport ≡ s.transport ++ frame ∷ []
      pub counts : sender.info.tx_seq ≡ s.info.tx_seq + 1
      pub receives :
          (timeout : Option ℕ) (start : ℕ) (rest : List Arrival)
          → recv P tr timeout start (arrival now frame ∷ rest) r
            ≡ (some (ok chunk), received frame now r)
      pub refused :
          (seqs : List ℕ)
          → is_replay s.info.tx_seq (accept_all seqs ((received frame now r).info, [])).0 ≡ true

    -- From a sender over a transport that keeps all it is given to a receiver over an unreliable
    -- transport, whose key, session id and cipher suite are shared and have the right sizes, `send`
    -- of at most 452 bytes writes one frame and spends one sequence number; if the receiver's
    -- window does not refuse that number, `recv` returns the bytes when the frame arrives, whatever
    -- follows it, and the window refuses the number then and after its tests and its update have
    -- run over any further numbers.
    pub recv-send_datagram :
        SharesKey s.info r.info
        → length chunk ≤ usmp_max_data_len
        → s.info.tx_seq < max_seq
        → is_replay s.info.tx_seq r.info ≡ false
        → Datagram
    unfolding send recv recv_loop recv_result resume
    recv-send_datagram m small room fresh =
        let sealing : Sealing P laws data_packet chunk s.info r.info =
          seal-open_any P laws chunk s.info r.info m room small in
        let frame : Sent = record {
          type = data_packet;
          payload = sealing.payload;
          seq = s.info.tx_seq;
        } in
        let sender : Session (List Sent) = after_sent data_packet sealing.payload s in
        let two : length chunk + 2 ≡ suc (suc (length chunk)) = omega arith in
        record {
          frame = frame;
          sender = sender;
          sends =
              rw
                (
                  ltb_of_le (usmp_max_data_len * usmp_max_frames) (length chunk) (omega arith),
                  two,
                  one_chunk P laws chunk s sender (length chunk) small
                      (send-step P data_packet chunk sealing.payload s sealing.sealed room),
                )
                refl;
          wrote = refl;
          counts = refl;
          receives = λ timeout start rest.
              rw (turn_delivers frame chunk now start r sealing.opens refl room fresh) refl;
          refused = λ seqs.
              accept_all-refuses seqs s.info.tx_seq ((received frame now r).info, [])
                (mark_seen-is_replay s.info.tx_seq r.info);
        }
