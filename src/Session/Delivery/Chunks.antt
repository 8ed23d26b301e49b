-- ===== src/Session/Delivery/Chunks.antt =====
-- One chunk of a message in delivery: the turn of the loop of `send` and the turn of the loop of `recv`.
use usmp.Prelude.{
  ℕ, suc, ◌+◌, ◌-◌, ◌*◌, ◌≤◌, ◌<◌, ◌≡◌, ◌⊎◌, inl, inr, refl, ap, ◌∙◌, Bool, true, false, ◌||◌, some,
  List, [], ◌∷◌, ◌++◌, Bytes, length, min, take, drop, length-take, length-drop, take-append-take,
  take_all, arith, ltb, ◌==◌, Bool-cases, lt_of_ltb, le_of_ltb,
}
use mathlib.Core.List.{append_assoc}
use usmp.Errors.{Result, ok}
use usmp.Types.{usmp_max_data_len, usmp_max_frames, SessionInfo}
use usmp.Crypto.Backend.{Primitives, PrimitiveLaws}
use usmp.Transport.{Transport}
use usmp.Session.{Session, max_seq, send_encrypted_locked, after_chunk, send_loop}
use usmp.Session.Receive.{Arrival, Assembly, returned, recv_loop}
use usmp.Session.Delivery.Frame.{
  Sent, outbox, Matched, Sealing, seal-open, chunk_packet, after_sent, after_read, after_append,
  arrival, Matched-next, send-step, last-step, more-step,
}

abbrev pub arrivals : ℕ → List Sent → List Arrival
arrivals now [] = []
arrivals now (x ∷ xs) = arrival now x ∷ arrivals now xs

-- The receiver has the first `k` chunks of a message, and the sender is about to send the next.
pub record IsMidway (reliable : Bool) (bytes : Bytes) (k offset : ℕ) (a : Assembly)
    (s r : SessionInfo) : Type 0 where
  pub place : offset ≡ usmp_max_data_len * k
  pub inside : (offset < length bytes) ⊎ ((length bytes ≡ 0) × (offset ≡ 0))
  pub fits : length bytes ≤ usmp_max_data_len * usmp_max_frames
  pub count : a.frame_count ≡ k
  pub assembled : a.assembled_payload ≡ take offset bytes
  pub expected : 0 < a.frame_count → a.expected_frag_seq ≡ s.tx_seq
  pub matched : Matched reliable s r
  pub room : s.tx_seq + usmp_max_frames < max_seq + k

module _ (P : Primitives) (laws : PrimitiveLaws P) {R : Type 0} (tr : Transport R) (reliable : Bool)
    (mode : tr.is_reliable ≡ reliable) (now : ℕ) where
  -- How the rest of a message goes over.
  pub record Delivered (fuel : ℕ) (bytes : Bytes) (offset : ℕ) (a : Assembly)
      (s : Session (List Sent)) (r : Session R) : Type 0 where
    pub frames : List Sent
    pub sender : Session (List Sent)
    pub receiver : Session R
    pub sends : send_loop P outbox fuel bytes offset s ≡ some (ok tt, sender)
    pub wrote : sender.transport ≡ s.transport ++ frames
    pub receives :
        (rest : List Arrival)
        → recv_loop P tr (arrivals now frames ++ rest) a r ≡ (returned bytes receiver, rest)
    pub matched : Matched reliable sender.info receiver.info

  module _ (bytes : Bytes) (k offset : ℕ) (a : Assembly) (s : Session (List Sent)) (r : Session R)
      (v : IsMidway reliable bytes k offset a s.info r.info) where
    abbrev pub chunk : Bytes
    chunk = take usmp_max_data_len (drop offset bytes)

    chunk_size : length chunk ≤ usmp_max_data_len
    chunk_size = omega (arith, length-take {0} usmp_max_data_len (drop offset bytes))

    chunk_length : length chunk ≡ min usmp_max_data_len (length bytes - offset)
    chunk_length =
        omega (
          arith,
          length-take {0} usmp_max_data_len (drop offset bytes),
          length-drop {0} offset bytes,
        )

    has_room : s.info.tx_seq < max_seq
    has_room = ground (arith, v.room, v.place, v.inside, v.fits)

    sent_chunk : Result (Unit {0}) × Session (List Sent)
    sent_chunk =
        send_encrypted_locked P outbox (chunk_packet (ltb (offset + length chunk) (length bytes)))
          chunk s

    -- The loop takes its body.
    loop_body :
        (fuel : ℕ)
        → send_loop P outbox (suc fuel) bytes offset s
          ≡ after_chunk P outbox
              (length bytes == 0)
              (send_loop P outbox fuel bytes (offset + length chunk))
              sent_chunk
    unfolding send_loop sent_chunk
    loop_body fuel =
        let entered : (ltb offset (length bytes) || (length bytes == 0)) ≡ true =
          ground (arith, v.inside) in
        rw entered

    joined : a.assembled_payload ++ chunk ≡ take (offset + usmp_max_data_len) bytes
    joined = ap (λ l. l ++ chunk) v.assembled ∙ take-append-take offset bytes usmp_max_data_len

    -- The last chunk.
    module _ (last : ltb (offset + length chunk) (length bytes) ≡ false) where
      whole : a.assembled_payload ++ chunk ≡ bytes
      whole =
          joined
          ∙ take_all bytes (offset + usmp_max_data_len)
              (omega (arith, le_of_ltb _ _ last, chunk_length))

      Sealing-last : Sealing P laws (chunk_packet false) chunk s.info r.info
      Sealing-last =
          seal-open P laws reliable (chunk_packet false) chunk s.info r.info v.matched has_room
            chunk_size

      sent_last : Sent
      sent_last = record {
        type = chunk_packet false;
        payload = Sealing-last.payload;
        seq = s.info.tx_seq;
      }

      sender_last : Session (List Sent)
      sender_last = after_sent (chunk_packet false) Sealing-last.payload s

      sent_chunk-last : sent_chunk ≡ (ok tt, sender_last)
      unfolding sent_chunk sender_last
      sent_chunk-last = rw last (
          send-step P (chunk_packet false) chunk Sealing-last.payload s Sealing-last.sealed
            has_room)

      loop_ends :
          (fuel : ℕ) (s' : Session (List Sent))
          → (length bytes == 0) ≡ false
          → send_loop P outbox (suc fuel) bytes (offset + length chunk) s' ≡ some (ok tt, s')
      unfolding send_loop
      loop_ends fuel s' ne = rw (last, ne)

      sends_last :
          (fuel : ℕ)
          → send_loop P outbox (suc (suc fuel)) bytes offset s ≡ some (ok tt, sender_last)
      unfolding after_chunk
      sends_last fuel =
          loop_body (suc fuel)
          ∙ rw sent_chunk-last (elim (Bool-cases (length bytes == 0)) [
            | inl none_left ↦ rw none_left
            | inr some_left ↦ rw some_left (loop_ends fuel sender_last some_left)
          ])

      receives_last :
          (rest : List Arrival)
          → recv_loop P tr (arrival now sent_last ∷ rest) a r
            ≡ (returned bytes (after_read tr reliable s.info.tx_seq now r), rest)
      unfolding recv_loop sent_last
      receives_last rest = rw (
        last-step P tr reliable mode sent_last chunk now a r Sealing-last.opens v.matched.seq
            has_room v.expected refl,
        whole,
      )

      pub deliver_last : (fuel : ℕ) → Delivered (suc (suc fuel)) bytes offset a s r
      unfolding sender_last sent_last
      deliver_last fuel = record {
        frames = sent_last ∷ [];
        sender = sender_last;
        receiver = after_read tr reliable s.info.tx_seq now r;
        sends = sends_last fuel;
        wrote = refl;
        receives = receives_last;
        matched = Matched-next tr reliable now s.info r v.matched;
      }

    -- Any other chunk.
    module _ (more : ltb (offset + length chunk) (length bytes) ≡ true) where
      pub full : length chunk ≡ usmp_max_data_len
      full = omega (arith, lt_of_ltb _ _ more, chunk_length)

      count_room : a.frame_count + 1 < usmp_max_frames
      count_room = omega (arith, lt_of_ltb _ _ more, full, v.place, v.fits, v.count)

      Sealing-more : Sealing P laws (chunk_packet true) chunk s.info r.info
      Sealing-more =
          seal-open P laws reliable (chunk_packet true) chunk s.info r.info v.matched has_room
            chunk_size

      sent_more : Sent
      sent_more = record {
        type = chunk_packet true;
        payload = Sealing-more.payload;
        seq = s.info.tx_seq;
      }

      pub sender_more : Session (List Sent)
      sender_more = after_sent (chunk_packet true) Sealing-more.payload s

      sends_more :
          (fuel : ℕ)
          → send_loop P outbox (suc fuel) bytes offset s
            ≡ send_loop P outbox fuel bytes (offset + length chunk) sender_more
      unfolding after_chunk sent_chunk sender_more
      sends_more fuel =
          let some_left : (length bytes == 0) ≡ false = ground (arith, lt_of_ltb _ _ more) in
          loop_body fuel
          ∙ rw (
            more,
            send-step P (chunk_packet true) chunk Sealing-more.payload s Sealing-more.sealed
                has_room,
            some_left,
          )

      receives_more :
          (rest : List Arrival)
          → recv_loop P tr (arrival now sent_more ∷ rest) a r
            ≡ recv_loop P tr rest
                (after_append chunk s.info.tx_seq a)
                (after_read tr reliable s.info.tx_seq now r)
      unfolding recv_loop sent_more
      receives_more rest = rw (
          more-step P tr reliable mode sent_more chunk now a r Sealing-more.opens v.matched.seq
            has_room v.expected refl count_room)

      pub IsMidway-next :
          IsMidway reliable bytes
            (k + 1)
            (offset + length chunk)
            (after_append chunk s.info.tx_seq a)
            sender_more.info
            (after_read tr reliable s.info.tx_seq now r).info
      unfolding sender_more
      IsMidway-next = record {
        place = omega (arith, full, v.place);
        inside = inl (lt_of_ltb _ _ more);
        fits = v.fits;
        count = ap (λ (n : ℕ). n + 1) v.count;
        assembled = rw full joined;
        expected = λ h. refl;
        matched = Matched-next tr reliable now s.info r v.matched;
        room = omega (arith, v.room);
      }

      pub deliver_more :
          (fuel : ℕ)
          → Delivered fuel bytes
              (offset + length chunk)
              (after_append chunk s.info.tx_seq a)
              sender_more
              (after_read tr reliable s.info.tx_seq now r)
          → Delivered (suc fuel) bytes offset a s r
      unfolding sender_more sent_more
      deliver_more fuel d = record {
        frames = sent_more ∷ d.frames;
        sender = d.sender;
        receiver = d.receiver;
        sends = sends_more fuel ∙ d.sends;
        wrote = d.wrote ∙ append_assoc s.transport (sent_more ∷ []) d.frames;
        receives = λ rest. receives_more (arrivals now d.frames ++ rest) ∙ d.receives rest;
        matched = d.matched;
      }
