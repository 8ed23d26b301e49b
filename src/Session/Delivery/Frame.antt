-- ===== src/Session/Delivery/Frame.antt =====
-- One data frame from a sending session to its peer, over a reliable transport or not.
use usmp.Prelude.{
  ℕ, ◌+◌, ◌/◌, ◌%◌, ◌^◌, ◌≤◌, ◌<◌, ◌≡◌, ◌∙◌, refl, sym, ap, not, ◌&&◌, if_false, Bool, true, false,
  List, [], ◌∷◌, ◌++◌, Bytes, length, take, length-take, arith, min, leb_of_lt, Bool-cases, inl,
  inr, ltb, lt_of_ltb, if◌then◌else◌, ==_refl,
}
use usmp.Errors.{ok}
use usmp.Types.{
  PacketType, type_int, usmp_magic, usmp_version, SessionInfo, Frame, data_packet, data_frag,
  usmp_max_data_len, usmp_max_frames,
}
use usmp.Types.Laws.{type_int-lt}
use usmp.Struct.Laws.{pack_u32_lt}
use usmp.Frame.RoundTrip.{sent_frame}
use usmp.Crypto.Backend.{Primitives, PrimitiveLaws}
use usmp.Crypto.Seal.{Encrypted, encrypt-Encrypted}
use usmp.Transport.{Transport}
use usmp.Session.Window.{is_replay, mark_seen}
use usmp.Session.Window.Fresh.{IsFreshFrom, mark_seen-IsFreshFrom, mark_seen-Keeps}
use usmp.Session.{Session, max_seq, frame_nonce, seal_frame, write_sealed, send_encrypted_locked}
use usmp.Session.Receive.{
  Arrival, Assembly, recv_turn, opened, open_frame, accept_frame, handle_frame, handle_data,
  append_chunk, absorb, again, returned,
}

-- What a transport was given to write.
pub record Sent : Type 0 where
  pub type : PacketType
  pub payload : Bytes
  pub seq : ℕ

-- A transport that delivers all that is written, in order.
abbrev pub outbox : Transport (List Sent)
outbox = record {
  is_reliable = true;
  write_frame =
      λ type payload seq l. (ok tt, l ++ record { type = type; payload = payload; seq = seq } ∷ []);
  set_session_keys = λ tx rx l. l;
  confirm_authenticated = λ seq l. l;
  close = λ l. l;
}

-- The receiver takes the number next: over a reliable transport it is the one that it waits for, over
-- another the window refuses neither it nor a later one.
abbrev pub IsNext : Bool → ℕ → SessionInfo → Type 0
IsNext true seq r = seq ≡ r.rx_seq
IsNext false seq r = IsFreshFrom seq r

-- The sender's next frame is one that the receiver takes, under the same key.
pub record Matched (reliable : Bool) (s r : SessionInfo) : Type 0 where
  pub key : s.tx_key ≡ r.rx_key
  pub session : s.session_id ≡ r.session_id
  pub suite : s.cipher_suite ≡ r.cipher_suite
  pub seq : IsNext reliable s.tx_seq r
  pub key_size : length s.tx_key ≡ 32
  pub id_size : length s.session_id ≡ 16

abbrev pub nonce_bytes : ℕ → SessionInfo → Bytes
nonce_bytes seq info =
    (seq % 256 ∷ seq / 256 % 256 ∷ seq / 65536 % 256 ∷ seq / 16777216 ∷ [])
    ++ take 8 info.session_id

pub frame_nonce-eq :
    (seq : ℕ) (info : SessionInfo) → seq < 2 ^ 32 → frame_nonce seq info ≡ ok (nonce_bytes seq info)
unfolding frame_nonce
frame_nonce-eq seq info h = rw (pack_u32_lt seq h)

module _ (P : Primitives) (laws : PrimitiveLaws P) where
  -- A chunk sealed by the sender opens for the receiver.
  pub record Sealing (type : PacketType) (chunk : Bytes) (s r : SessionInfo) : Type 0 where
    pub payload : Bytes
    pub sealed : seal_frame P type chunk s ≡ ok payload
    pub opens : open_frame P (sent_frame type s.tx_seq payload) r ≡ ok chunk

  pub seal-open :
      (reliable : Bool) (type : PacketType) (chunk : Bytes) (s r : SessionInfo)
      → Matched reliable s r
      → s.tx_seq < max_seq
      → length chunk ≤ usmp_max_data_len
      → Sealing type chunk s r
  unfolding seal_frame open_frame
  seal-open reliable type chunk s r m hs hc =
      let nonce : Bytes = nonce_bytes s.tx_seq s in
      let n12 : length nonce ≡ 12 = omega (arith, length-take {0} 8 s.session_id, m.id_size) in
      let e : Encrypted P s.tx_key nonce s.tx_seq (type_int type) usmp_version usmp_magic chunk
          s.cipher_suite =
        encrypt-Encrypted P laws s.tx_key nonce s.tx_seq (type_int type) usmp_version usmp_magic
          chunk s.cipher_suite m.key_size n12 (omega arith) (omega arith) (type_int-lt type)
          (omega arith) (omega arith) in
      record {
        payload = e.payload;
        sealed = rw (frame_nonce-eq s.tx_seq s (omega arith)) e.encrypted;
        opens =
            rw (frame_nonce-eq s.tx_seq r (omega arith), ← m.key, ← m.session, ← m.suite)
              e.decrypted;
      }

-- The type of a chunk, by whether more chunks follow.
abbrev pub chunk_packet : Bool → PacketType
chunk_packet more = if more then data_frag else data_packet

-- The sender after one more frame.
abbrev pub after_sent : PacketType → Bytes → Session (List Sent) → Session (List Sent)
after_sent type payload s = record s {
  info = record s.info { tx_seq = s.info.tx_seq + 1 };
  transport = s.transport ++ record { type = type; payload = payload; seq = s.info.tx_seq } ∷ [];
}

-- The receiver after one more frame, read at `now`.
abbrev pub after_read : {R : Type 0} → Transport R → Bool → ℕ → ℕ → Session R → Session R
after_read tr true seq now r = record r {
  info = record r.info { rx_seq = r.info.rx_seq + 1 };
  last_recv = now;
}
after_read tr false seq now r = record r {
  info = mark_seen seq r.info;
  last_recv = now;
  transport = tr.confirm_authenticated seq r.transport;
}

-- The same before the time stamp.
abbrev after_mark : {R : Type 0} → Transport R → Bool → ℕ → Session R → Session R
after_mark tr true seq r = record r { info = record r.info { rx_seq = r.info.rx_seq + 1 } }
after_mark tr false seq r = record r {
  info = mark_seen seq r.info;
  transport = tr.confirm_authenticated seq r.transport;
}

-- The assembly after one more chunk.
abbrev pub after_append : Bytes → ℕ → Assembly → Assembly
after_append chunk seq a = record a {
  assembled_payload = a.assembled_payload ++ chunk;
  frame_count = a.frame_count + 1;
  expected_frag_seq = seq + 1;
}

-- A frame arrives.
abbrev pub arrival : ℕ → Sent → Arrival
arrival now x = record {
  frame = ok (sent_frame x.type x.seq x.payload);
  read_at = now;
  handled_at = now;
}

pub send-step :
    (P : Primitives) (type : PacketType) (chunk payload : Bytes) (s : Session (List Sent))
    → seal_frame P type chunk s.info ≡ ok payload
    → s.info.tx_seq < max_seq
    → send_encrypted_locked P outbox type chunk s ≡ (ok tt, after_sent type payload s)
unfolding send_encrypted_locked write_sealed
send-step P type chunk payload s h room =
    let m : min (s.info.tx_seq + 1) max_seq ≡ s.info.tx_seq + 1 = omega arith in
    rw (leb_of_lt max_seq s.info.tx_seq room, h, m)

pub Matched-next :
    {R : Type 0} (tr : Transport R) (reliable : Bool) (now : ℕ) (s : SessionInfo) (r : Session R)
    → Matched reliable s r.info
    → Matched reliable
        (record s { tx_seq = s.tx_seq + 1 })
        (after_read tr reliable s.tx_seq now r).info
Matched-next tr true now s r m = record {
  key = m.key;
  session = m.session;
  suite = m.suite;
  seq = ap (λ (n : ℕ). n + 1) m.seq;
  key_size = m.key_size;
  id_size = m.id_size;
}
Matched-next tr false now s r m = record {
  key = m.key ∙ sym (mark_seen-Keeps s.tx_seq r.info).key;
  session = m.session ∙ sym (mark_seen-Keeps s.tx_seq r.info).session;
  suite = m.suite ∙ sym (mark_seen-Keeps s.tx_seq r.info).suite;
  seq = mark_seen-IsFreshFrom s.tx_seq (s.tx_seq + 1) r.info (omega arith) m.seq;
  key_size = m.key_size;
  id_size = m.id_size;
}

module _ (P : Primitives) {R : Type 0} (tr : Transport R) where
  accept-step :
      (reliable : Bool) (f : Frame) (chunk : Bytes) (now : ℕ) (a : Assembly) (r : Session R)
      (more : Bool)
      → tr.is_reliable ≡ reliable
      → f.type ≡ chunk_packet more
      → IsNext reliable f.seq r.info
      → f.seq < max_seq
      → accept_frame P tr f chunk now a r
        ≡ absorb P tr (handle_data P tr f chunk a (after_mark tr reliable f.seq r))
  unfolding accept_frame handle_frame
  accept-step true f chunk now a r true mode ht hs hm =
      rw (leb_of_lt max_seq f.seq hm, mode, hs, ==_refl r.info.rx_seq, ht)
  accept-step true f chunk now a r false mode ht hs hm =
      rw (leb_of_lt max_seq f.seq hm, mode, hs, ==_refl r.info.rx_seq, ht)
  accept-step false f chunk now a r true mode ht hs hm = rw (leb_of_lt max_seq f.seq hm, mode, ht)
  accept-step false f chunk now a r false mode ht hs hm = rw (leb_of_lt max_seq f.seq hm, mode, ht)

  data-step :
      (f : Frame) (chunk : Bytes) (a : Assembly) (r : Session R)
      → (0 < a.frame_count → a.expected_frag_seq ≡ f.seq)
      → handle_data P tr f chunk a r ≡ append_chunk P tr f chunk (f.seq + 1) a r
  unfolding handle_data
  data-step f chunk a r h = elim (Bool-cases (ltb 0 a.frame_count)) [
    | inl later ↦ rw (later, h (lt_of_ltb 0 a.frame_count later), ==_refl f.seq)
    | inr first ↦ rw first
  ]

  -- The replay test lets the frame through.
  passes :
      (reliable : Bool) (seq : ℕ) (r : SessionInfo)
      → tr.is_reliable ≡ reliable
      → IsNext reliable seq r
      → (not tr.is_reliable && is_replay seq r) ≡ false
  passes true seq r mode h = rw mode refl
  passes false seq r mode h = rw (mode, h seq (omega arith)) refl

  marked :
      (reliable : Bool) (f : Frame) (chunk : Bytes) (now : ℕ) (a : Assembly) (r : Session R)
      (more : Bool)
      → tr.is_reliable ≡ reliable
      → f.type ≡ chunk_packet more
      → IsNext reliable f.seq r.info
      → f.seq < max_seq
      → (0 < a.frame_count → a.expected_frag_seq ≡ f.seq)
      → accept_frame P tr f chunk now a (record r { last_recv = now })
        ≡ absorb P tr (append_chunk P tr f chunk (f.seq + 1) a (after_read tr reliable f.seq now r))
  marked true f chunk now a r more mode ht hs hm he =
      accept-step true f chunk now a (record r { last_recv = now }) more mode ht hs hm
      ∙ ap (absorb P tr) (data-step f chunk a (after_read tr true f.seq now r) he)
  marked false f chunk now a r more mode ht hs hm he =
      accept-step false f chunk now a (record r { last_recv = now }) more mode ht hs hm
      ∙ ap (absorb P tr) (data-step f chunk a (after_read tr false f.seq now r) he)

  turn-step :
      (reliable : Bool) (x : Sent) (chunk : Bytes) (now : ℕ) (a : Assembly) (r : Session R)
      (more : Bool)
      → tr.is_reliable ≡ reliable
      → open_frame P (sent_frame x.type x.seq x.payload) r.info ≡ ok chunk
      → x.type ≡ chunk_packet more
      → IsNext reliable x.seq r.info
      → x.seq < max_seq
      → (0 < a.frame_count → a.expected_frag_seq ≡ x.seq)
      → recv_turn P tr (ok (sent_frame x.type x.seq x.payload)) (arrival now x) a r
        ≡ absorb P tr (
            append_chunk P tr
              (sent_frame x.type x.seq x.payload)
              chunk
              (x.seq + 1)
              a
              (after_read tr reliable x.seq now r))
  unfolding recv_turn opened
  turn-step reliable x chunk now a r more mode ho ht hs hm he =
      if_false (not tr.is_reliable && is_replay x.seq r.info) _ _
        (passes reliable x.seq r.info mode hs)
      ∙ rw ho
          (marked reliable (sent_frame x.type x.seq x.payload) chunk now a r more mode ht hs hm he)

module _ (P : Primitives) {R : Type 0} (tr : Transport R) (reliable : Bool)
    (mode : tr.is_reliable ≡ reliable) (x : Sent) (chunk : Bytes) (now : ℕ) (a : Assembly)
    (r : Session R) (opens : open_frame P (sent_frame x.type x.seq x.payload) r.info ≡ ok chunk)
    (next : IsNext reliable x.seq r.info) (small : x.seq < max_seq)
    (expected : 0 < a.frame_count → a.expected_frag_seq ≡ x.seq) where
  -- The last chunk ends the message.
  pub last-step :
      x.type ≡ data_packet
      → recv_turn P tr (ok (sent_frame x.type x.seq x.payload)) (arrival now x) a r
        ≡ returned (a.assembled_payload ++ chunk) (after_read tr reliable x.seq now r)
  unfolding append_chunk absorb
  last-step ht =
      rw (turn-step P tr reliable x chunk now a r false mode opens ht next small expected, ht)

  -- Any other chunk is added to the message.
  pub more-step :
      x.type ≡ data_frag
      → a.frame_count + 1 < usmp_max_frames
      → recv_turn P tr (ok (sent_frame x.type x.seq x.payload)) (arrival now x) a r
        ≡ again (after_append chunk x.seq a) (after_read tr reliable x.seq now r)
  unfolding append_chunk absorb
  more-step ht room = rw (
    turn-step P tr reliable x chunk now a r true mode opens ht next small expected,
    ht,
    leb_of_lt usmp_max_frames (a.frame_count + 1) room,
  )
