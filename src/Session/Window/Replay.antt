-- ===== src/Session/Window/Replay.antt =====
-- A frame that comes again over UDP.
use usmp.Prelude.{
  ℕ, ◌+◌, ◌-◌, ◌*◌, ◌^◌, ◌≡◌, ◌≢◌, if_true, ap, sym, refl, Bool, true, false, not, ◌&&◌, List,
  Bytes, bit_or, leb, if◌then◌else◌, arith,
}
use usmp.Prelude.Bits.{test_bit-or}
use usmp.Errors.{Result, ok, err}
use usmp.Types.{PacketType, Frame, SessionInfo}
use usmp.Crypto.Backend.{Primitives}
use usmp.Transport.{Transport}
use usmp.Session.{Session, max_seq, send_pong}
use usmp.Session.Nonce.{Call, run_calls}
use usmp.Session.Nonce.Record.{Recorded, recording}
use usmp.Session.Window.Calls.{changes, Refuses, run_calls-Refuses}
use usmp.Session.Window.{is_replay, mark_seen, shifted_bitmap}
use usmp.Session.Window.Tracks.{bit_test, shifted_bits}
use usmp.Session.Receive.{
  Arrival, Assembly, Turn, again, returned, raised, count_control, after_pong, handle_control,
  handle_rekey, append_chunk, handle_data, handle_frame, absorb, accept_frame, read_failed, opened,
  recv_turn, open_frame,
}

-- A number that has been noted is a replay.
pub mark_seen-is_replay : (seq : ℕ) (info : SessionInfo) → is_replay seq (mark_seen seq info) ≡ true
unfolding is_replay mark_seen
mark_seen-is_replay seq info = ground (
  arith,
  bit_test (shifted_bitmap info.rx_window_bitmap (seq - info.rx_seq)) (seq - seq),
  shifted_bits info.rx_window_bitmap (seq - info.rx_seq) (seq - seq),
  bit_test (bit_or info.rx_window_bitmap (1 * 2 ^ (info.rx_seq - seq))) (info.rx_seq - seq),
  test_bit-or (info.rx_seq - seq) info.rx_window_bitmap (info.rx_seq - seq),
)

-- The branch that an equation leaves.
taken {ℓ} :
    {A : Type ℓ} (test : Bool) (x y : A) {z : A} → test ≡ true → (if test then x else y) ≡ z → x ≡ z
taken true x y e h = h
taken false x y e h = cc

passed {ℓ} :
    {A : Type ℓ} (test : Bool) (x y : A) {z : A} → x ≢ z → (if test then x else y) ≡ z → y ≡ z
passed true x y ne h = absurd (ne h)
passed false x y ne h = h

module _ (P : Primitives) {T : Type 0} (tr : Transport T) where
  count_control_continues :
      (now : ℕ) (a : Assembly) (s : Session T) (bytes : Bytes) (s' : Session T)
      → count_control P tr now a s ≢ returned bytes s'
  unfolding count_control
  count_control_continues now a s bytes s' h = ground arith

  after_pong_continues :
      (now : ℕ) (a : Assembly) (r : Result (Unit {0}) × Session T) (bytes : Bytes) (s' : Session T)
      → after_pong P tr now a r ≢ returned bytes s'
  unfolding after_pong
  after_pong_continues now a (ok u, s) bytes s' h = count_control_continues now a s bytes s' h
  after_pong_continues now a (err e, s) bytes s' h = cc

  handle_control_continues :
      (type : PacketType) (now : ℕ) (a : Assembly) (s : Session T) (bytes : Bytes) (s' : Session T)
      → handle_control P tr type now a s ≢ returned bytes s'
  unfolding handle_control
  handle_control_continues type now a s bytes s' h = ground (
    arith,
    after_pong_continues now a (send_pong P tr s) bytes s',
    count_control_continues now a s bytes s',
  )

  handle_rekey_continues :
      (plaintext : Bytes) (a : Assembly) (s : Session T) (bytes : Bytes) (s' : Session T)
      → handle_rekey P tr plaintext a s ≢ returned bytes s'
  unfolding handle_rekey
  handle_rekey_continues plaintext a s bytes s' h = ground arith

  append_chunk_same :
      (f : Frame) (plaintext : Bytes) (expected : ℕ) (a : Assembly) (s : Session T) (bytes : Bytes)
      (s' : Session T)
      → append_chunk P tr f plaintext expected a s ≡ returned bytes s'
      → s ≡ s'
  unfolding append_chunk
  append_chunk_same f plaintext expected a s bytes s' h = ground arith

  handle_frame_same :
      (f : Frame) (plaintext : Bytes) (now : ℕ) (a : Assembly) (s : Session T) (bytes : Bytes)
      (s' : Session T)
      → handle_frame P tr f plaintext now a s ≡ returned bytes s'
      → s ≡ s'
  unfolding handle_frame handle_data
  handle_frame_same f plaintext now a s bytes s' h = ground (
    arith,
    handle_control_continues f.type now a s bytes s',
    handle_rekey_continues plaintext a s bytes s',
    append_chunk_same f plaintext (a.expected_frag_seq + 1) a s bytes s',
    append_chunk_same f plaintext (f.seq + 1) a s bytes s',
  )

  absorb_same :
      (turn : Turn T) (bytes : Bytes) (s' : Session T)
      → absorb P tr turn ≡ returned bytes s'
      → turn ≡ returned bytes s'
  unfolding absorb
  absorb_same (again a s) bytes s' h = h
  absorb_same (returned b s) bytes s' h = h
  absorb_same (raised e a s) bytes s' h = ground arith

  module _ (unreliable : tr.is_reliable ≡ false) where
    accept_frame_marks :
        (f : Frame) (plaintext : Bytes) (now : ℕ) (a : Assembly) (s : Session T) (bytes : Bytes)
        (s' : Session T)
        → accept_frame P tr f plaintext now a s ≡ returned bytes s'
        → s'.info ≡ mark_seen f.seq s.info
    unfolding accept_frame
    accept_frame_marks f plaintext now a s bytes s' h =
        let noted : Session T = record s {
          info = mark_seen f.seq s.info;
          transport = tr.confirm_authenticated f.seq s.transport;
        } in
        let h' : absorb P tr (handle_frame P tr f plaintext now a noted) ≡ returned bytes s' =
          taken (not tr.is_reliable) _ _ (rw unreliable refl)
            (passed (leb max_seq f.seq) _ _ (λ e. cc) h) in
        ap (λ r. r.info)
          (sym (handle_frame_same f plaintext now a noted bytes s' (absorb_same _ bytes s' h')))

    opened_marks :
        (f : Frame) (plaintext : Result Bytes) (x : Arrival) (a : Assembly) (s : Session T)
        (bytes : Bytes) (s' : Session T)
        → opened P tr f plaintext x a s ≡ returned bytes s'
        → s'.info ≡ mark_seen f.seq s.info
    unfolding opened read_failed
    opened_marks f (ok plaintext) x a s bytes s' h =
        accept_frame_marks f plaintext x.handled_at a (record s { last_recv = x.read_at }) bytes s'
          h
    opened_marks f (err e) x a s bytes s' h = ground arith

module _ (P : Primitives) {T : Type 0} (tr : Transport T)
    (unreliable : tr.is_reliable ≡ false) where
  -- Over an unreliable transport, when a turn of `recv` with some frame has returned a message,
  -- then after any calls of `send`, `ping`, `rekey`, `bye` and `recv`, with any arrivals, as long
  -- as the keys have not changed since, a turn with the same frame leaves the session as it is and
  -- goes on reading.
  pub recv_turn_once :
      (f : Frame) (x y : Arrival) (a b : Assembly) (cs : List Call) (s s' : Session (Recorded T))
      (bytes : Bytes)
      → recv_turn P (recording tr) (ok f) x a s ≡ returned bytes s'
      → changes (run_calls P tr cs s') ≡ changes s'
      → recv_turn P (recording tr) (ok f) y b (run_calls P tr cs s')
        ≡ again b (run_calls P tr cs s')
  unfolding recv_turn
  recv_turn_once f x y a b cs s s' bytes h same =
      let later : Session (Recorded T) = run_calls P tr cs s' in
      let marked : s'.info ≡ mark_seen f.seq s.info =
        opened_marks P (recording tr) unreliable f (open_frame P f s.info) x a s bytes s'
          (passed (not tr.is_reliable && is_replay f.seq s.info) _ _ (λ e. cc) h) in
      let start : Refuses f.seq (changes s') s' = record {
        since = omega arith;
        refused = λ le. rw marked (mark_seen-is_replay f.seq s.info);
      } in
      let replay : is_replay f.seq later.info ≡ true =
        (run_calls-Refuses P tr f.seq (changes s') unreliable cs s' start).refused (omega arith) in
      if_true (not tr.is_reliable && is_replay f.seq later.info) _ _ (rw (replay, unreliable) refl)
