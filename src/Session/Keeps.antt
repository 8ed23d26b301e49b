-- ===== src/Session/Keeps.antt =====
-- What `recv` keeps: any property that its few writes to the session keep.
use usmp.Prelude.{
  ℕ, ◌+◌, ◌≡◌, refl, not, leb, ◌==◌, Bool, true, false, Option, List, [], ◌∷◌, Bytes, if◌then◌else◌,
}
use usmp.Errors.{Error, sequence_error, Result, ok, err}
use usmp.Types.{Frame, PacketType}
use usmp.Crypto.Backend.{Primitives}
use usmp.Transport.{Transport}
use usmp.Session.{Session, max_seq, send_pong, rotate_keys}
use usmp.Session.Window.{mark_seen}
use usmp.Session.Receive.{
  Arrival, Assembly, Turn, again, returned, raised, after_pong, count_control, handle_control,
  handle_rekey, append_chunk, handle_data, handle_frame, absorb, accept_frame, read_failed, opened,
  recv_turn, resume, recv_loop, recv_result, recv, open_frame, empty_assembly,
}

abbrev pub session_of : {T : Type 0} → Turn T → Session T
session_of (again a s) = s
session_of (returned bytes s) = s
session_of (raised e a s) = s

true_of_not : (b : Bool) → not b ≡ false → b ≡ true
true_of_not true h = refl
true_of_not false h = cc

-- A property that each write of `recv` keeps.
pub record IsKept (P : Primitives) {T : Type 0} (tr : Transport T) (I : Session T → Type 0)
    : Type 0 where
  pub pong : (s : Session T) → I s → I (send_pong P tr s).1
  pub rotate : (salt : Bytes) (s : Session T) → I s → I (rotate_keys P tr false salt s)
  pub seen :
      (seq : ℕ) (s : Session T)
      → I s
      → I (record s {
        info = mark_seen seq s.info;
        transport = tr.confirm_authenticated seq s.transport;
      })
  pub next :
      tr.is_reliable ≡ true
      → (s : Session T) → I s
      → I (record s { info = record s.info { rx_seq = s.info.rx_seq + 1 } })
  pub stamp : (time : ℕ) (s : Session T) → I s → I (record s { last_recv = time })

module _ (P : Primitives) {T : Type 0} (tr : Transport T) (I : Session T → Type 0)
    (k : IsKept P tr I) where
  -- The property at the session of a turn.
  record Holds (t : Turn T) : Type 0 where
    at : I (session_of t)

  again-Holds : (a : Assembly) (s : Session T) → I s → Holds (again a s)
  again-Holds a s h = record { at = h }

  returned-Holds : (bytes : Bytes) (s : Session T) → I s → Holds (returned bytes s)
  returned-Holds bytes s h = record { at = h }

  raised-Holds : (e : Error) (a : Assembly) (s : Session T) → I s → Holds (raised e a s)
  raised-Holds e a s h = record { at = h }

  if-Holds : (b : Bool) (t u : Turn T) → Holds t → Holds u → Holds (if b then t else u)
  if-Holds true t u ht hu = ht
  if-Holds false t u ht hu = hu

  if_by-Holds :
      (b : Bool) (t u : Turn T)
      → (b ≡ true → Holds t)
      → (b ≡ false → Holds u)
      → Holds (if b then t else u)
  if_by-Holds true t u ht hu = ht refl
  if_by-Holds false t u ht hu = hu refl

  ruleset holds_rules = (again-Holds, returned-Holds, raised-Holds, if-Holds)

  count_control-Holds :
      (now : ℕ) (a : Assembly) (s : Session T) → I s → Holds (count_control P tr now a s)
  unfolding count_control
  count_control-Holds now a s h = search (holds_rules)

  after_pong-Holds :
      (now : ℕ) (a : Assembly) (r : Result (Unit {0}) × Session T)
      → I r.1
      → Holds (after_pong P tr now a r)
  unfolding after_pong
  after_pong-Holds now a (ok u, s) h = count_control-Holds now a s h
  after_pong-Holds now a (err e, s) h = raised-Holds e a s h

  handle_control-Holds :
      (type : PacketType) (now : ℕ) (a : Assembly) (s : Session T)
      → I s
      → Holds (handle_control P tr type now a s)
  unfolding handle_control
  handle_control-Holds type now a s h =
      let after : Holds (after_pong P tr now a (send_pong P tr s)) =
        after_pong-Holds now a (send_pong P tr s) (k.pong s h) in
      search (holds_rules, count_control-Holds)

  handle_rekey-Holds :
      (plaintext : Bytes) (a : Assembly) (s : Session T)
      → I s
      → Holds (handle_rekey P tr plaintext a s)
  unfolding handle_rekey
  handle_rekey-Holds plaintext a s h =
      let rotated : I (rotate_keys P tr false plaintext s) = k.rotate plaintext s h in
      search holds_rules

  append_chunk-Holds :
      (f : Frame) (plaintext : Bytes) (expected : ℕ) (a : Assembly) (s : Session T)
      → I s
      → Holds (append_chunk P tr f plaintext expected a s)
  unfolding append_chunk
  append_chunk-Holds f plaintext expected a s h = search holds_rules

  handle_data-Holds :
      (f : Frame) (plaintext : Bytes) (a : Assembly) (s : Session T)
      → I s
      → Holds (handle_data P tr f plaintext a s)
  unfolding handle_data
  handle_data-Holds f plaintext a s h =
      let first : Holds (append_chunk P tr f plaintext (f.seq + 1) a s) =
        append_chunk-Holds f plaintext (f.seq + 1) a s h in
      let later : Holds (append_chunk P tr f plaintext (a.expected_frag_seq + 1) a s) =
        append_chunk-Holds f plaintext (a.expected_frag_seq + 1) a s h in
      search holds_rules

  handle_frame-Holds :
      (f : Frame) (plaintext : Bytes) (now : ℕ) (a : Assembly) (s : Session T)
      → I s
      → Holds (handle_frame P tr f plaintext now a s)
  unfolding handle_frame
  handle_frame-Holds f plaintext now a s h =
      let control = handle_control-Holds f.type now a s h in
      let keys = handle_rekey-Holds plaintext a s h in
      let chunk = handle_data-Holds f plaintext a s h in search holds_rules

  absorb-Holds : (t : Turn T) → Holds t → Holds (absorb P tr t)
  unfolding absorb
  absorb-Holds (again a s) h = h
  absorb-Holds (returned bytes s) h = h
  absorb-Holds (raised e a s) h = let at : I s = h.at in search holds_rules

  accept_frame-Holds :
      (f : Frame) (plaintext : Bytes) (now : ℕ) (a : Assembly) (s : Session T)
      → I s
      → Holds (accept_frame P tr f plaintext now a s)
  unfolding accept_frame
  accept_frame-Holds f plaintext now a s h =
      let marked = absorb-Holds _ (handle_frame-Holds f plaintext now a _ (k.seen f.seq s h)) in
      if-Holds (leb max_seq f.seq) _ _ (raised-Holds sequence_error a s h) (
        if_by-Holds (not tr.is_reliable) _ _ (λ e. marked)
          (λ e. if-Holds (not (f.seq == s.info.rx_seq)) _ _ (raised-Holds sequence_error a s h) (
            absorb-Holds _ (
              handle_frame-Holds f plaintext now a _ (k.next (true_of_not tr.is_reliable e) s h)))))

  read_failed-Holds :
      (e : Error) (a : Assembly) (s : Session T) → I s → Holds (read_failed P tr e a s)
  unfolding read_failed
  read_failed-Holds e a s h = search holds_rules

  opened-Holds :
      (f : Frame) (r : Result Bytes) (x : Arrival) (a : Assembly) (s : Session T)
      → I s
      → Holds (opened P tr f r x a s)
  unfolding opened
  opened-Holds f (ok plaintext) x a s h =
      accept_frame-Holds f plaintext x.handled_at a _ (k.stamp x.read_at s h)
  opened-Holds f (err e) x a s h = read_failed-Holds e a s h

  recv_turn-Holds :
      (r : Result Frame) (x : Arrival) (a : Assembly) (s : Session T)
      → I s
      → Holds (recv_turn P tr r x a s)
  unfolding recv_turn
  recv_turn-Holds (err e) x a s h = read_failed-Holds e a s h
  recv_turn-Holds (ok f) x a s h =
      let rest = opened-Holds f (open_frame P f s.info) x a s h in search holds_rules

  resume-Holds :
      (loop : Assembly → Session T → Turn T × List Arrival) (xs : List Arrival) (t : Turn T)
      → ((a : Assembly) (s : Session T) → I s → Holds (loop a s).0)
      → Holds t
      → Holds (resume P tr loop xs t).0
  unfolding resume
  resume-Holds loop xs (again a s) l h = l a s h.at
  resume-Holds loop xs (returned bytes s) l h = h
  resume-Holds loop xs (raised e a s) l h = h

  recv_loop-Holds :
      (xs : List Arrival) (a : Assembly) (s : Session T) → I s → Holds (recv_loop P tr xs a s).0
  unfolding recv_loop
  recv_loop-Holds [] a s h = again-Holds a s h
  recv_loop-Holds (x ∷ xs) a s h =
      resume-Holds (recv_loop P tr xs) xs _ (recv_loop-Holds xs) (recv_turn-Holds x.frame x a s h)

  recv_result-Holds : (timeout : Option ℕ) (t : Turn T) → Holds t → I (recv_result P tr timeout t).1
  unfolding recv_result
  recv_result-Holds timeout (again a s) h = h.at
  recv_result-Holds timeout (returned bytes s) h = h.at
  recv_result-Holds timeout (raised e a s) h = h.at

  -- Whatever arrives, `recv` keeps the property.
  pub recv-keeps :
      (timeout : Option ℕ) (start : ℕ) (xs : List Arrival) (s : Session T)
      → I s
      → I (recv P tr timeout start xs s).1
  unfolding recv
  recv-keeps timeout start xs s h =
      recv_result-Holds timeout _ (recv_loop-Holds xs (empty_assembly start) s h)
