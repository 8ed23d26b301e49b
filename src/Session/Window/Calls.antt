-- ===== src/Session/Window/Calls.antt =====
-- The window of a session over its calls.
use usmp.Prelude.{
  ℕ, zero, suc, ◌+◌, ◌*◌, ◌≤◌, ◌≡◌, refl, Bool, true, false, not, ◌&&◌, ◌||◌, Option, List, [], ◌∷◌,
  Bytes, length, take, drop, ltb, leb, ◌==◌, if◌then◌else◌, arith, Bool-cases, inl, inr,
}
use usmp.Errors.{Result, ok, err}
use usmp.Types.{
  PacketType, data_packet, data_frag, ping, pong, rekey as rekey_packet, bye as bye_packet,
  same_type, usmp_max_data_len, usmp_max_frames,
}
use usmp.Crypto.Backend.{Primitives}
use usmp.Transport.{Transport}
use usmp.Session.{
  Session, max_seq, seal_frame, write_sealed, send_sealed, after_chunk, after_rekey,
  send_encrypted_locked, send_loop, send, send_ping, send_pong, rotate_keys, rekey, farewell, bye,
}
use usmp.Session.Window.{is_replay}
use usmp.Session.Window.Keeps.{mark_seen-refuses}
use usmp.Session.Keeps.{IsKept, recv-keeps}
use usmp.Session.Nonce.{
  Call, send_call, rekey_call, ping_call, bye_call, recv_call, run_call, run_calls,
}
use usmp.Session.Nonce.Record.{Recorded, recording}
use usmp.Session.Nonce.Steps.{state_after}

-- The changes of keys since the beginning.
abbrev pub changes : {T : Type 0} → Session (Recorded T) → ℕ
changes s = length s.transport.past

-- There have been `n` changes of keys at least, and while there are no more the number is refused.
pub record Refuses {T : Type 0} (seq n : ℕ) (s : Session (Recorded T)) : Type 0 where
  pub since : n ≤ changes s
  pub refused : changes s ≤ n → is_replay seq s.info ≡ true

module _ (P : Primitives) {T : Type 0} (tr : Transport T) (seq n : ℕ) where
  -- Only the window and the changes of keys matter.
  same_window :
      (s s' : Session (Recorded T))
      → s'.info.rx_seq ≡ s.info.rx_seq
      → s'.info.rx_window_bitmap ≡ s.info.rx_window_bitmap
      → s'.transport.past ≡ s.transport.past
      → Refuses seq n s
      → Refuses seq n s'
  unfolding is_replay
  same_window s s' hr hb hp v = record {
    since = rw hp v.since;
    refused = λ le. let le' : changes s ≤ n = rw hp at le in rw (hr, hb) (v.refused le');
  }

  send_sealed-Refuses :
      (ptype : PacketType) (sealed : Result Bytes) (s : Session (Recorded T))
      → Refuses seq n s
      → Refuses seq n (send_sealed P (recording tr) ptype sealed s).1
  unfolding send_sealed write_sealed
  send_sealed-Refuses ptype (ok ciphertext) s v = same_window s _ refl refl refl v
  send_sealed-Refuses ptype (err e) s v = v

  send_encrypted-Refuses :
      (ptype : PacketType) (plaintext : Bytes) (s : Session (Recorded T))
      → Refuses seq n s
      → Refuses seq n (send_encrypted_locked P (recording tr) ptype plaintext s).1
  unfolding send_encrypted_locked
  send_encrypted-Refuses ptype plaintext s v =
      elim (Bool-cases (leb max_seq s.info.tx_seq && not (same_type ptype bye_packet))) [
        | inl spent ↦ rw spent v
        | inr room ↦ rw room (send_sealed-Refuses ptype (seal_frame P ptype plaintext s.info) s v)
      ]

  rotate_keys-Refuses :
      (is_initiator : Bool) (salt : Bytes) (s : Session (Recorded T))
      → Refuses seq n s
      → Refuses seq n (rotate_keys P (recording tr) is_initiator salt s)
  unfolding rotate_keys
  rotate_keys-Refuses is_initiator salt s v = record {
    since = omega (arith, v.since);
    refused = λ le. absurd (omega (arith, v.since, le));
  }

  after_chunk-Refuses :
      (is_empty : Bool)
      (loop : Session (Recorded T) → Option (Result (Unit {0}) × Session (Recorded T)))
      (sent : Result (Unit {0}) × Session (Recorded T)) (s : Session (Recorded T))
      → ((s' : Session (Recorded T))
          → Refuses seq n s'
          → Refuses seq n (state_after P tr (loop s') s))
      → Refuses seq n sent.1
      → Refuses seq n (state_after P tr (after_chunk P (recording tr) is_empty loop sent) s)
  unfolding after_chunk
  after_chunk-Refuses true loop (ok u, s1) s l v = v
  after_chunk-Refuses false loop (ok u, s1) s l v = l s1 v
  after_chunk-Refuses is_empty loop (err e, s1) s l v = v

  send_loop-Refuses :
      (fuel : ℕ) (bytes : Bytes) (offset : ℕ) (s s0 : Session (Recorded T))
      → Refuses seq n s
      → Refuses seq n s0
      → Refuses seq n (state_after P tr (send_loop P (recording tr) fuel bytes offset s) s0)
  unfolding send_loop
  send_loop-Refuses zero bytes offset s s0 v v0 = v0
  send_loop-Refuses (suc fuel) bytes offset s s0 v v0 =
      let chunk : Bytes = take usmp_max_data_len (drop offset bytes) in
      let is_frag : Bool = ltb (offset + length chunk) (length bytes) in
      elim (Bool-cases (ltb offset (length bytes) || (length bytes == 0))) [
        | inl go ↦ rw go (
            after_chunk-Refuses (length bytes == 0)
              (send_loop P (recording tr) fuel bytes (offset + length chunk)) _ s0
              (λ s1 v1. send_loop-Refuses fuel bytes (offset + length chunk) s1 s0 v1 v0)
              (send_encrypted-Refuses (if is_frag then data_frag else data_packet) chunk s v))
        | inr stop ↦ rw stop v
      ]

  send-Refuses :
      (bytes : Bytes) (s : Session (Recorded T))
      → Refuses seq n s
      → Refuses seq n (state_after P tr (send P (recording tr) bytes s) s)
  unfolding send
  send-Refuses bytes s v =
      elim (Bool-cases (ltb (usmp_max_data_len * usmp_max_frames) (length bytes))) [
        | inl large ↦ rw large v
        | inr fits ↦ rw fits (send_loop-Refuses (length bytes + 2) bytes 0 s s v v)
      ]

  after_rekey-Refuses :
      (salt : Bytes) (sent : Result (Unit {0}) × Session (Recorded T))
      → Refuses seq n sent.1
      → Refuses seq n (after_rekey P (recording tr) salt sent).1
  unfolding after_rekey
  after_rekey-Refuses salt (ok u, s) v = rotate_keys-Refuses true salt s v
  after_rekey-Refuses salt (err e, s) v = v

  farewell-Refuses :
      (sent : Result (Unit {0}) × Session (Recorded T))
      → Refuses seq n sent.1
      → Refuses seq n (farewell P (recording tr) sent).1
  farewell-Refuses (ok u, s) v = same_window s _ refl refl refl v
  farewell-Refuses (err e, s) v = same_window s _ refl refl refl v

  if-Refuses :
      (b : Bool) (x y : Result (Unit {0}) × Session (Recorded T))
      → Refuses seq n x.1
      → Refuses seq n y.1
      → Refuses seq n (if b then x else y).1
  if-Refuses true x y vx vy = vx
  if-Refuses false x y vx vy = vy

  bye-Refuses :
      (s : Session (Recorded T)) → Refuses seq n s → Refuses seq n (bye P (recording tr) s).1
  unfolding bye
  bye-Refuses s v =
      if-Refuses s.closed (ok tt, s) _ v
        (farewell-Refuses _ (
          send_encrypted-Refuses bye_packet [] (record s { closed = true })
            (same_window s _ refl refl refl v)))

  module _ (unreliable : tr.is_reliable ≡ false) where
    receive-IsKept : IsKept P (recording tr) (Refuses seq n)
    unfolding send_pong
    receive-IsKept = record {
      pong = λ s v. send_encrypted-Refuses pong [] s v;
      rotate = rotate_keys-Refuses false;
      seen = λ other s v. record {
        since = v.since;
        refused = λ le. mark_seen-refuses seq other s.info (v.refused le);
      };
      next = λ reliable s v. cc;
      stamp = λ time s v. same_window s _ refl refl refl v;
    }

    run_call-Refuses :
        (c : Call) (s : Session (Recorded T)) → Refuses seq n s → Refuses seq n (run_call P tr c s)
    unfolding run_call send_ping rekey
    run_call-Refuses (send_call bytes) s v = send-Refuses bytes s v
    run_call-Refuses (rekey_call salt) s v =
        after_rekey-Refuses salt _ (send_encrypted-Refuses rekey_packet salt s v)
    run_call-Refuses ping_call s v = send_encrypted-Refuses ping [] s v
    run_call-Refuses bye_call s v = bye-Refuses s v
    run_call-Refuses (recv_call timeout start xs) s v =
        recv-keeps P (recording tr) (Refuses seq n) receive-IsKept timeout start xs s v

    -- Whatever calls are made.
    pub run_calls-Refuses :
        (cs : List Call) (s : Session (Recorded T))
        → Refuses seq n s
        → Refuses seq n (run_calls P tr cs s)
    unfolding run_calls
    run_calls-Refuses [] s v = v
    run_calls-Refuses (c ∷ cs) s v =
        run_calls-Refuses cs (run_call P tr c s) (run_call-Refuses c s v)
