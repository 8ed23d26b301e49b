-- ===== src/Tcp/Session.antt =====
-- `send` of sdk/python/src/usmp/_session.py over the `TCPTransport` of transport/tcp.py, and the bytes
-- that reach the connection.
use mathlib.Core.List.{append_assoc, append-nil}
use usmp.Prelude.{
  ℕ, zero, suc, ◌+◌, ◌*◌, ◌^◌, ◌≤◌, ◌<◌, ◌≡◌, ◌∙◌, refl, sym, ap, Bool, true, false, not, ◌&&◌,
  ◌||◌, Option, none, some, List, [], ◌∷◌, ◌++◌, Bytes, AreBytes, AreBytes-append, AreBytes-take,
  AreBytes-drop, length, length-take, take, drop, arith, ltb, leb, ◌==◌, if◌then◌else◌, Bool-cases,
  inl, inr,
}
use usmp.Errors.{Result, ok, err}
use usmp.Types.{
  PacketType, SessionInfo, usmp_max_data_len, usmp_max_payload, usmp_max_frames, usmp_version,
  usmp_magic, type_int, same_type, bye, data_packet, data_frag,
}
use usmp.Types.Laws.{type_int-lt}
use usmp.Frame.Wire.{frame_bytes, encode_frame-eq}
use usmp.Crypto.Backend.{Primitives, PrimitiveLaws}
use usmp.Crypto.Seal.{Encrypted, encrypt-Encrypted}
use usmp.Session.{
  Session, max_seq, seal_frame, write_sealed, send_sealed, send_encrypted_locked, after_chunk,
  send_loop, send,
}
use usmp.Session.Delivery.Frame.{Sent, outbox, nonce_bytes, frame_nonce-eq}
use usmp.Tcp.{StreamWriter, write_data, write_frame, tcp_transport}
use usmp.Tcp.Frames.{KeepsBytes, AreInRange, all_bytes, write_data-ok}

-- The sizes that a session's data has from its handshake.
pub record IsSized (info : SessionInfo) : Type 0 where
  pub key : length info.tx_key ≡ 32
  pub id : length info.session_id ≡ 16
  pub id_bytes : AreBytes info.session_id

AreInRange-append : (xs ys : List Sent) → AreInRange xs → AreInRange ys → AreInRange (xs ++ ys)
AreInRange-append [] ys hx hy = hy
AreInRange-append (x ∷ xs) ys (hl, hs, hb, hx) hy = (hl, hs, hb, AreInRange-append xs ys hx hy)

all_bytes-append : (xs ys : List Sent) → all_bytes (xs ++ ys) ≡ all_bytes xs ++ all_bytes ys
all_bytes-append [] ys = refl
all_bytes-append (x ∷ xs) ys =
    rw (all_bytes-append xs ys)
      (sym (append_assoc (frame_bytes x.type x.seq x.payload) (all_bytes xs) (all_bytes ys)))

ok_injective : {x y : Bytes} → ◌≡◌ {A = Result Bytes} (ok x) (ok y) → x ≡ y
ok_injective h = cc

module _ (P : Primitives) (laws : PrimitiveLaws P) where
  -- A sealed chunk fits into a frame.
  seal_frame-fits :
      (type : PacketType) (chunk payload : Bytes) (info : SessionInfo)
      → IsSized info
      → info.tx_seq < 2 ^ 32
      → length chunk ≤ usmp_max_data_len
      → AreBytes chunk
      → seal_frame P type chunk info ≡ ok payload
      → (length payload ≤ usmp_max_payload) × AreBytes payload
  unfolding seal_frame
  seal_frame-fits type chunk payload info z hs hc hb h =
      let nonce : Bytes = nonce_bytes info.tx_seq info in
      let n12 : length nonce ≡ 12 = omega (arith, length-take {0} 8 info.session_id, z.id) in
      let nb : AreBytes nonce =
        AreBytes-append (take 4 nonce) (take 8 info.session_id) (omega arith)
          (AreBytes-take 8 info.session_id z.id_bytes) in
      let e : Encrypted P info.tx_key nonce info.tx_seq (type_int type) usmp_version usmp_magic
          chunk info.cipher_suite =
        encrypt-Encrypted P laws info.tx_key nonce info.tx_seq (type_int type) usmp_version
          usmp_magic chunk info.cipher_suite z.key n12 (omega arith) (omega arith)
          (type_int-lt type) hs (omega arith) in
      let same : e.payload ≡ payload =
        ok_injective (sym e.encrypted ∙ rw (frame_nonce-eq info.tx_seq info hs) at h) in
      rw (← same) (omega (arith, e.size), e.bytes nb hb)

module _ (P : Primitives) (laws : PrimitiveLaws P) {W : Type 0} (writer : StreamWriter W)
    (written : W → Bytes) (keeps : KeepsBytes writer written) (base : Bytes) where
  -- A session over TCP in the place of one over a list of frames.
  abbrev pub over : Session (List Sent) → W → Session W
  over s t = record {
    info = s.info;
    recv_timeout = s.recv_timeout;
    last_recv = s.last_recv;
    closed = s.closed;
    transport = t;
  }

  -- The bytes written are those of the frames.
  pub record Follows (s : Session (List Sent)) (t : W) : Type 0 where
    pub wrote : written t ≡ base ++ all_bytes s.transport
    pub range : AreInRange s.transport
    pub sized : IsSized s.info
    pub bound : s.info.tx_seq < 2 ^ 32

  -- The two sessions did the same.
  abbrev Same : Result (Unit {0}) × Session (List Sent) → Result (Unit {0}) × Session W → Type 0
  Same o x = (t : W) × (x ≡ (o.0, over o.1 t)) × Follows o.1 t

  write_sealed-Same :
      (type : PacketType) (payload : Bytes) (s : Session (List Sent)) (t : W)
      → Follows s t
      → length payload ≤ usmp_max_payload
      → AreBytes payload
      → Same
          (write_sealed P outbox type payload s)
          (write_sealed P (tcp_transport writer) type payload (over s t))
  unfolding write_sealed write_frame
  write_sealed-Same type payload s t f hl hb =
      let encoded : Bytes = frame_bytes type s.info.tx_seq payload in
      let (sent, kept) = write_data-ok writer written keeps encoded t in
      (
        (write_data writer (ok encoded) t).1,
        rw (encode_frame-eq type payload s.info.tx_seq hl f.bound hb, sent) refl,
        record {
          wrote =
              kept
              ∙ ap (λ b. b ++ encoded) f.wrote
              ∙ rw
                  (
                    append_assoc base (all_bytes s.transport) encoded,
                    all_bytes-append s.transport
                        (record { type = type; payload = payload; seq = s.info.tx_seq } ∷ []),
                    append-nil encoded,
                  )
                  refl;
          range = AreInRange-append s.transport _ f.range (hl, f.bound, hb, tt);
          sized = record { key = f.sized.key; id = f.sized.id; id_bytes = f.sized.id_bytes };
          bound = omega arith;
        },
      )

  module _ (type : PacketType) (chunk : Bytes) (small : length chunk ≤ usmp_max_data_len)
      (are_bytes : AreBytes chunk) where
    send_sealed-Same :
        (r : Result Bytes) (s : Session (List Sent)) (t : W)
        → Follows s t
        → seal_frame P type chunk s.info ≡ r
        → Same
            (send_sealed P outbox type r s)
            (send_sealed P (tcp_transport writer) type r (over s t))
    unfolding send_sealed
    send_sealed-Same (ok payload) s t f h =
        let (hl, hb) =
          seal_frame-fits P laws type chunk payload s.info f.sized f.bound small are_bytes h in
        write_sealed-Same type payload s t f hl hb
    send_sealed-Same (err e) s t f h = (t, refl, f)

    send_encrypted_locked-Same :
        (s : Session (List Sent)) (t : W)
        → Follows s t
        → Same
            (send_encrypted_locked P outbox type chunk s)
            (send_encrypted_locked P (tcp_transport writer) type chunk (over s t))
    unfolding send_encrypted_locked
    send_encrypted_locked-Same s t f =
        elim (Bool-cases (leb max_seq s.info.tx_seq && not (same_type type bye))) [
          | inl spent ↦ rw spent (t, refl, f)
          | inr left ↦ rw left (send_sealed-Same (seal_frame P type chunk s.info) s t f refl)
        ]

  -- The same for a loop, which may run out of fuel.
  abbrev pub SameEnd :
      Option (Result (Unit {0}) × Session (List Sent))
      → Option (Result (Unit {0}) × Session W)
      → Type 0
  SameEnd none x = x ≡ none
  SameEnd (some (r, s)) x = (t : W) × (x ≡ some (r, over s t)) × Follows s t

  after_chunk-Same :
      (is_empty : Bool) (o : Result (Unit {0}) × Session (List Sent))
      (x : Result (Unit {0}) × Session W)
      (loop : Session (List Sent) → Option (Result (Unit {0}) × Session (List Sent)))
      (loop' : Session W → Option (Result (Unit {0}) × Session W))
      → ((s : Session (List Sent)) (t : W) → Follows s t → SameEnd (loop s) (loop' (over s t)))
      → Same o x
      → SameEnd
          (after_chunk P outbox is_empty loop o)
          (after_chunk P (tcp_transport writer) is_empty loop' x)
  unfolding after_chunk
  after_chunk-Same true (ok u, s) x loop loop' ih (t, e, f) = (t, rw e refl, f)
  after_chunk-Same false (ok u, s) x loop loop' ih (t, e, f) = rw e (ih s t f)
  after_chunk-Same b (err e, s) x loop loop' ih (t, h, f) = (t, rw h refl, f)

  send_loop-Same :
      (fuel : ℕ) (bytes : Bytes) (offset : ℕ) (s : Session (List Sent)) (t : W)
      → AreBytes bytes
      → Follows s t
      → SameEnd
          (send_loop P outbox fuel bytes offset s)
          (send_loop P (tcp_transport writer) fuel bytes offset (over s t))
  unfolding send_loop
  send_loop-Same zero bytes offset s t hb f = refl
  send_loop-Same (suc fuel) bytes offset s t hb f =
      let chunk : Bytes = take usmp_max_data_len (drop offset bytes) in
      elim (Bool-cases (ltb offset (length bytes) || (length bytes == 0))) [
        | inl entered ↦ rw entered (
            after_chunk-Same (length bytes == 0) _ _ _ _
              (λ s' t' f'. send_loop-Same fuel bytes (offset + length chunk) s' t' hb f')
              (send_encrypted_locked-Same
                (if ltb (offset + length chunk) (length bytes) then data_frag else data_packet)
                chunk (omega (arith, length-take {0} usmp_max_data_len (drop offset bytes)))
                (AreBytes-take usmp_max_data_len (drop offset bytes)
                  (AreBytes-drop offset bytes hb))
                s t f))
        | inr over_all ↦ rw over_all (t, refl, f)
      ]

  pub send-Same :
      (bytes : Bytes) (s : Session (List Sent)) (t : W)
      → AreBytes bytes
      → Follows s t
      → SameEnd (send P outbox bytes s) (send P (tcp_transport writer) bytes (over s t))
  unfolding send
  send-Same bytes s t hb f =
      elim (Bool-cases (ltb (usmp_max_data_len * usmp_max_frames) (length bytes))) [
        | inl long ↦ rw long (t, refl, f)
        | inr fits ↦ rw fits (send_loop-Same (length bytes + 2) bytes 0 s t hb f)
      ]
