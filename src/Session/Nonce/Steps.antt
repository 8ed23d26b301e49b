-- ===== src/Session/Nonce/Steps.antt =====
-- The sequence numbers that each method of a session uses.
use usmp.Prelude.{
  ℕ, zero, suc, ◌+◌, ◌<◌, ◌≡◌, ◌⊎◌, inl, inr, refl, Bool, true, false, ◌||◌, Option, none, some,
  List, [], Bytes, length, take, drop, ltb, leb, ◌==◌, if◌then◌else◌, arith, Bool-cases, lt_of_leb,
  ◌*◌,
}
use usmp.Errors.{Result, ok, err}
use usmp.Types.{
  PacketType, data_packet, data_frag, ping, pong, rekey as rekey_packet, bye as bye_packet,
  same_type, usmp_max_data_len, usmp_max_frames,
}
use usmp.Crypto.Backend.{Primitives}
use usmp.Transport.{Transport}
use usmp.Session.{
  Session, max_seq, seal_frame, write_sealed, send_sealed, after_chunk, after_rekey,
  send_encrypted_locked, send_loop, send, send_ping, send_pong, rotate_keys, rekey, farewell, bye,
}
use usmp.Session.Window.{mark_seen}
use usmp.Session.Window.Tracks.{mark_seen-tx_seq}
use usmp.Session.Window.Tracks.{contains}
use usmp.Session.Receive.{Arrival, recv}
use usmp.Session.Keeps.{IsKept, recv-keeps}
use usmp.Session.Nonce.Record.{Recorded, recording, IsNonceSafe}

-- A number that is not spent is new.
fresh_seq :
    {T : Type 0} (s : Session (Recorded T))
    → IsNonceSafe s
    → (s.info.tx_seq < max_seq) ⊎ (s.closed ≡ false)
    → contains s.info.tx_seq s.transport.current ≡ false
fresh_seq s v h = elim (Bool-cases (contains s.info.tx_seq s.transport.current)) [
  | inl used ↦ absurd (ground (arith, v.spent s.info.tx_seq used))
  | inr new ↦ new
]

module _ (P : Primitives) {T : Type 0} (tr : Transport T) where
  write_sealed-safe :
      (ptype : PacketType) (ciphertext : Bytes) (s : Session (Recorded T))
      → s.info.tx_seq < max_seq
      → IsNonceSafe s
      → IsNonceSafe (write_sealed P (recording tr) ptype ciphertext s).1
  unfolding write_sealed
  write_sealed-safe ptype ciphertext s room v = record {
    bounded = omega arith;
    distinct = (fresh_seq s v (inl room), v.distinct);
    earlier = v.earlier;
    spent = λ x h. ground (arith, v.spent x);
  }

  -- The one frame that may go out at the last number.
  write_bye-safe :
      (ciphertext : Bytes) (s : Session (Recorded T))
      → s.closed ≡ false
      → IsNonceSafe s
      → IsNonceSafe
          (write_sealed P (recording tr) bye_packet ciphertext (record s { closed = true })).1
  unfolding write_sealed
  write_bye-safe ciphertext s opened v = record {
    bounded = omega (arith, v.bounded);
    distinct = (fresh_seq s v (inr opened), v.distinct);
    earlier = v.earlier;
    spent = λ x h. ground (arith, v.spent x, v.bounded);
  }

  send_sealed-safe :
      (ptype : PacketType) (sealed : Result Bytes) (s : Session (Recorded T))
      → s.info.tx_seq < max_seq
      → IsNonceSafe s
      → IsNonceSafe (send_sealed P (recording tr) ptype sealed s).1
  unfolding send_sealed
  send_sealed-safe ptype (ok ciphertext) s room v = write_sealed-safe ptype ciphertext s room v
  send_sealed-safe ptype (err e) s room v = v

  send_encrypted_locked-safe :
      (ptype : PacketType) (plaintext : Bytes) (s : Session (Recorded T))
      → same_type ptype bye_packet ≡ false
      → IsNonceSafe s
      → IsNonceSafe (send_encrypted_locked P (recording tr) ptype plaintext s).1
  unfolding send_encrypted_locked
  send_encrypted_locked-safe ptype plaintext s other v =
      elim (Bool-cases (leb max_seq s.info.tx_seq)) [
        | inl spent ↦ rw (spent, other) v
        | inr room ↦
            rw room (
              send_sealed-safe ptype (seal_frame P ptype plaintext s.info) s (lt_of_leb _ _ room) v)
      ]

  rotate_keys-safe :
      (is_initiator : Bool) (salt : Bytes) (s : Session (Recorded T))
      → IsNonceSafe s
      → IsNonceSafe (rotate_keys P (recording tr) is_initiator salt s)
  unfolding rotate_keys
  rotate_keys-safe is_initiator salt s v = record {
    bounded = omega arith;
    distinct = tt;
    earlier = (v.distinct, v.earlier);
    spent = λ x h. cc;
  }

  -- The session that a loop of chunks leaves.
  abbrev pub state_after :
      Option (Result (Unit {0}) × Session (Recorded T))
      → Session (Recorded T)
      → Session (Recorded T)
  state_after none s = s
  state_after (some (r, s')) s = s'

  chunk_type : (b : Bool) → same_type (if b then data_frag else data_packet) bye_packet ≡ false
  chunk_type true = refl
  chunk_type false = refl

  after_chunk-safe :
      (is_empty : Bool)
      (loop : Session (Recorded T) → Option (Result (Unit {0}) × Session (Recorded T)))
      (sent : Result (Unit {0}) × Session (Recorded T)) (s : Session (Recorded T))
      → ((s' : Session (Recorded T)) → IsNonceSafe s' → IsNonceSafe (state_after (loop s') s))
      → IsNonceSafe sent.1
      → IsNonceSafe (state_after (after_chunk P (recording tr) is_empty loop sent) s)
  unfolding after_chunk
  after_chunk-safe true loop (ok u, s1) s l v = v
  after_chunk-safe false loop (ok u, s1) s l v = l s1 v
  after_chunk-safe is_empty loop (err e, s1) s l v = v

  send_loop-safe :
      (fuel : ℕ) (bytes : Bytes) (offset : ℕ) (s s0 : Session (Recorded T))
      → IsNonceSafe s
      → IsNonceSafe s0
      → IsNonceSafe (state_after (send_loop P (recording tr) fuel bytes offset s) s0)
  unfolding send_loop
  send_loop-safe zero bytes offset s s0 v v0 = v0
  send_loop-safe (suc fuel) bytes offset s s0 v v0 =
      let chunk : Bytes = take usmp_max_data_len (drop offset bytes) in
      let is_frag : Bool = ltb (offset + length chunk) (length bytes) in
      let next =
        after_chunk-safe (length bytes == 0)
          (send_loop P (recording tr) fuel bytes (offset + length chunk))
          (send_encrypted_locked P (recording tr) (if is_frag then data_frag else data_packet) chunk
            s)
          s0 (λ s1 v1. send_loop-safe fuel bytes (offset + length chunk) s1 s0 v1 v0)
          (send_encrypted_locked-safe (if is_frag then data_frag else data_packet) chunk s
            (chunk_type is_frag) v) in
      elim (Bool-cases (ltb offset (length bytes) || (length bytes == 0))) [
        | inl go ↦ rw go next
        | inr stop ↦ rw stop v
      ]

  pub send-safe :
      (bytes : Bytes) (s : Session (Recorded T))
      → IsNonceSafe s
      → IsNonceSafe (state_after (send P (recording tr) bytes s) s)
  unfolding send
  send-safe bytes s v =
      elim (Bool-cases (ltb (usmp_max_data_len * usmp_max_frames) (length bytes))) [
        | inl large ↦ rw large v
        | inr fits ↦ rw fits (send_loop-safe (length bytes + 2) bytes 0 s s v v)
      ]

  pub ping-safe :
      (s : Session (Recorded T)) → IsNonceSafe s → IsNonceSafe (send_ping P (recording tr) s).1
  unfolding send_ping
  ping-safe s v = send_encrypted_locked-safe ping [] s refl v

  pong-safe :
      (s : Session (Recorded T)) → IsNonceSafe s → IsNonceSafe (send_pong P (recording tr) s).1
  unfolding send_pong
  pong-safe s v = send_encrypted_locked-safe pong [] s refl v

  after_rekey-safe :
      (salt : Bytes) (sent : Result (Unit {0}) × Session (Recorded T))
      → IsNonceSafe sent.1
      → IsNonceSafe (after_rekey P (recording tr) salt sent).1
  unfolding after_rekey
  after_rekey-safe salt (ok u, s) v = rotate_keys-safe true salt s v
  after_rekey-safe salt (err e, s) v = v

  pub rekey-safe :
      (salt : Bytes) (s : Session (Recorded T))
      → IsNonceSafe s
      → IsNonceSafe (rekey P (recording tr) salt s).1
  unfolding rekey
  rekey-safe salt s v =
      after_rekey-safe salt _ (send_encrypted_locked-safe rekey_packet salt s refl v)

  farewell-safe :
      (sent : Result (Unit {0}) × Session (Recorded T))
      → IsNonceSafe sent.1
      → IsNonceSafe (farewell P (recording tr) sent).1
  farewell-safe (ok u, s) v = record {
    bounded = v.bounded;
    distinct = v.distinct;
    earlier = v.earlier;
    spent = v.spent;
  }
  farewell-safe (err e, s) v = record {
    bounded = v.bounded;
    distinct = v.distinct;
    earlier = v.earlier;
    spent = v.spent;
  }

  closing-safe :
      (s : Session (Recorded T)) → IsNonceSafe s → IsNonceSafe (record s { closed = true })
  closing-safe s v = record {
    bounded = v.bounded;
    distinct = v.distinct;
    earlier = v.earlier;
    spent = λ x h. ground (arith, v.spent x);
  }

  send_bye-safe :
      (sealed : Result Bytes) (s : Session (Recorded T))
      → s.closed ≡ false
      → IsNonceSafe s
      → IsNonceSafe (send_sealed P (recording tr) bye_packet sealed (record s { closed = true })).1
  unfolding send_sealed
  send_bye-safe (ok ciphertext) s opened v = write_bye-safe ciphertext s opened v
  send_bye-safe (err e) s opened v = closing-safe s v

  bye_sent-safe :
      (s : Session (Recorded T))
      → s.closed ≡ false
      → IsNonceSafe s
      → IsNonceSafe
          (send_encrypted_locked P (recording tr) bye_packet [] (record s { closed = true })).1
  unfolding send_encrypted_locked
  bye_sent-safe s opened v = elim (Bool-cases (leb max_seq s.info.tx_seq)) [
    | inl last ↦ rw last (send_bye-safe _ s opened v)
    | inr room ↦ rw room (send_bye-safe _ s opened v)
  ]

  bye_if-safe :
      (s : Session (Recorded T))
      → IsNonceSafe s
      → (is_closed : Bool) → s.closed ≡ is_closed
      → IsNonceSafe
          (if is_closed
            then (ok tt, s)
            else farewell P (recording tr) (
                send_encrypted_locked P
                  (recording tr)
                  bye_packet
                  []
                  (record s { closed = true }))).1
  bye_if-safe s v true done = v
  bye_if-safe s v false opened = farewell-safe _ (bye_sent-safe s opened v)

  pub bye-safe : (s : Session (Recorded T)) → IsNonceSafe s → IsNonceSafe (bye P (recording tr) s).1
  unfolding bye
  bye-safe s v = bye_if-safe s v s.closed refl

  receive-IsKept : IsKept P (recording tr) IsNonceSafe
  receive-IsKept = record {
    pong = pong-safe;
    rotate = rotate_keys-safe false;
    seen = λ seq s v.
        let e : (mark_seen seq s.info).tx_seq ≡ s.info.tx_seq = mark_seen-tx_seq seq s.info in
        record {
          bounded = rw e v.bounded;
          distinct = v.distinct;
          earlier = v.earlier;
          spent = λ x h. rw e (v.spent x h);
        };
    next = λ reliable s v. record {
      bounded = v.bounded;
      distinct = v.distinct;
      earlier = v.earlier;
      spent = v.spent;
    };
    stamp = λ time s v. record {
      bounded = v.bounded;
      distinct = v.distinct;
      earlier = v.earlier;
      spent = v.spent;
    };
  }

  pub recv-safe :
      (timeout : Option ℕ) (start : ℕ) (xs : List Arrival) (s : Session (Recorded T))
      → IsNonceSafe s
      → IsNonceSafe (recv P (recording tr) timeout start xs s).1
  recv-safe = recv-keeps P (recording tr) IsNonceSafe receive-IsKept
