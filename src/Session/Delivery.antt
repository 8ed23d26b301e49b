-- ===== src/Session/Delivery.antt =====
-- A message of any admitted size, sent over a reliable transport: `send` and `recv` of
-- sdk/python/src/usmp/_session.py together.
pub mod Frame
pub mod Chunks
pub mod Datagram
use usmp.Prelude.{
  ℕ, zero, suc, ◌+◌, ◌-◌, ◌*◌, ◌≤◌, ◌<◌, ◌≡◌, ◌⊎◌, inl, inr, refl, sym, ap, ◌∙◌, Bool, true, false,
  ◌||◌, Option, none, some, List, [], ◌∷◌, ◌++◌, Bytes, length, min, take, drop, length-take,
  length-drop, take-append-take, take_all, arith, ltb, ◌==◌, if◌then◌else◌, Bool-cases, lt_of_ltb,
  le_of_ltb, ltb_of_le, ltb_of_lt,
}
use mathlib.Core.List.{append-nil, append_assoc}
use usmp.Errors.{Result, ok, err}
use usmp.Types.{usmp_max_data_len, usmp_max_frames, SessionInfo}
use usmp.Crypto.Backend.{Primitives, PrimitiveLaws}
use usmp.Transport.{Transport}
use usmp.Session.{Session, max_seq, send_encrypted_locked, after_chunk, send_loop, send}
use usmp.Session.Receive.{
  Arrival, Assembly, Turn, again, returned, resume, recv_turn, recv_loop, recv, empty_assembly,
}
use Frame.{
  Sent, outbox, Matched, Sealing, seal-open, chunk_packet, after_sent, after_read, after_append,
  arrival, send-step, last-step, more-step,
}
use Chunks.{arrivals, IsMidway, Delivered, chunk, full, IsMidway-next, deliver_more, deliver_last}

inside_start : (n : ℕ) → (0 < n) ⊎ ((n ≡ 0) × (◌≡◌ {A = ℕ} 0 0))
inside_start zero = inr (refl, refl)
inside_start (suc n) = inl (omega arith)

module _ (P : Primitives) (laws : PrimitiveLaws P) {R : Type 0} (tr : Transport R) (reliable : Bool)
    (mode : tr.is_reliable ≡ reliable) (now : ℕ) where
  deliver :
      (fuel : ℕ) (bytes : Bytes) (k offset : ℕ) (a : Assembly) (s : Session (List Sent))
      (r : Session R)
      → length bytes + 2 ≤ offset + fuel
      → IsMidway reliable bytes k offset a s.info r.info
      → Delivered P laws tr reliable mode now fuel bytes offset a s r
  deliver zero bytes k offset a s r h v = absurd (ground (arith, v.inside))
  deliver (suc zero) bytes k offset a s r h v = absurd (ground (arith, v.inside))
  deliver (suc (suc fuel)) bytes k offset a s r h v =
      elim (Bool-cases (
        ltb (offset + length (chunk P laws tr reliable mode now bytes k offset a s r v))
          (length bytes))) [
            | inl more ↦
                deliver_more P laws tr reliable mode now bytes k offset a s r v more (suc fuel) (
                  deliver (suc fuel) bytes (k + 1)
                    (offset + length (chunk P laws tr reliable mode now bytes k offset a s r v)) _ _
                    _ (omega (arith, full P laws tr reliable mode now bytes k offset a s r v more))
                    (IsMidway-next P laws tr reliable mode now bytes k offset a s r v more))
            | inr last ↦ deliver_last P laws tr reliable mode now bytes k offset a s r v last fuel
          ]

  -- What a message in range becomes: the frames written, and the two sessions after it.
  pub record Message (bytes : Bytes) (start : ℕ) (s : Session (List Sent)) (r : Session R)
      : Type 0 where
    pub frames : List Sent
    pub sender : Session (List Sent)
    pub receiver : Session R
    pub sends : send P outbox bytes s ≡ some (ok tt, sender)
    pub wrote : sender.transport ≡ s.transport ++ frames
    pub receives :
        (timeout : Option ℕ) (rest : List Arrival)
        → recv P tr timeout start (arrivals now frames ++ rest) r ≡ (some (ok bytes), receiver)
    pub matched : Matched reliable sender.info receiver.info

  -- From a sender over a transport that keeps all it is given to a receiver over a transport that
  -- is reliable or not, whose keys, session ids and cipher suites match and have the right sizes,
  -- where the sender's next sequence number is the one that the receiver waits for or, if the
  -- transport is not reliable, neither it nor a later one is refused by the window, `send` of at
  -- most 1808 bytes with four sequence numbers to spare succeeds, `recv` of the frames that it
  -- wrote returns the bytes, whatever follows the frames, and the sessions match again.
  pub recv-send :
      (bytes : Bytes) (start : ℕ) (s : Session (List Sent)) (r : Session R)
      → Matched reliable s.info r.info
      → length bytes ≤ usmp_max_data_len * usmp_max_frames
      → s.info.tx_seq + usmp_max_frames < max_seq
      → Message bytes start s r
  unfolding send recv
  recv-send bytes start s r m fits room =
      let d : Delivered P laws tr reliable mode now (length bytes + 2) bytes 0
          (empty_assembly start) s r =
        deliver (length bytes + 2) bytes 0 0 (empty_assembly start) s r (omega arith) (record {
          place = omega arith;
          inside = inside_start (length bytes);
          fits = fits;
          count = refl;
          assembled = refl;
          expected = λ h. absurd (omega arith);
          matched = m;
          room = omega arith;
        }) in
      record {
        frames = d.frames;
        sender = d.sender;
        receiver = d.receiver;
        sends = rw (ltb_of_le (usmp_max_data_len * usmp_max_frames) (length bytes) fits) d.sends;
        wrote = d.wrote;
        receives = λ timeout rest. rw (d.receives rest);
        matched = d.matched;
      }
