-- ===== src/Session/Receive.antt =====
-- `recv` of sdk/python/src/usmp/_session.py, over the list of what `read_frame` brings.
use usmp.Prelude.{
  ℕ, ◌+◌, Bool, true, false, not, ◌&&◌, ◌||◌, Option, none, some, List, [], ◌∷◌, ◌++◌, Bytes,
  length, ltb, leb, ◌==◌, if◌then◌else◌,
}
use usmp.Errors.{
  Error, sequence_error, payload_error, value_error, connection_closed_error, usmp_timeout_error,
  is_usmp_error, is_struct_error, is_frame_error, is_sequence_error, is_value_error, Result, ok,
  err, ◌>>=◌,
}
use usmp.Types.{
  PacketType, data_packet, data_frag, ping, pong, rekey as rekey_packet, bye as bye_packet,
  type_int, same_type, usmp_max_frames, Frame, SessionInfo,
}
use usmp.Crypto.{decrypt}
use usmp.Crypto.Backend.{Primitives}
use usmp.Transport.{Transport}
use usmp.Session.{Session, max_seq, frame_nonce, send_pong, rotate_keys}
use usmp.Session.Window.{is_replay, mark_seen}

-- One return of `await self._transport.read_frame()`: the frame or the exception, and the clock when
-- the frame has been decrypted and when a control frame is counted.
pub record Arrival : Type 0 where
  pub frame : Result Frame
  pub read_at : ℕ
  pub handled_at : ℕ

-- The local variables of `_recv_internal`.
pub record Assembly : Type 0 where
  pub assembled_payload : Bytes
  pub frame_count : ℕ
  pub ctrl_count : ℕ
  pub ctrl_window_start : ℕ
  pub expected_frag_seq : ℕ

-- How a turn of the loop, or a part of one, ends.
pub data Turn (T : Type 0) : Type 0 where
  -- `continue`
  again : Assembly → Session T → Turn T
  -- `return`
  returned : Bytes → Session T → Turn T
  -- an exception leaves the loop, or the inner `try` block
  raised : Error → Assembly → Session T → Turn T

-- One second.
abbrev pub second : ℕ
second = 1_000_000_000

abbrev pub is_data : PacketType → Bool
is_data t = same_type t data_packet || same_type t data_frag

-- The local variables when `_recv_internal` begins at the time `start`.
abbrev pub empty_assembly : ℕ → Assembly
empty_assembly start = record {
  assembled_payload = [];
  frame_count = 0;
  ctrl_count = 0;
  ctrl_window_start = start;
  expected_frag_seq = 0;
}

-- The nonce, and the decryption, of a frame.
unfoldable pub open_frame : Primitives → Frame → SessionInfo → Result Bytes
open_frame P f info = do
  nonce ← frame_nonce f.seq info
  decrypt P info.rx_key nonce f.seq (type_int f.type) f.version f.magic f.length f.payload
      info.cipher_suite

module _ (P : Primitives) {T : Type 0} (tr : Transport T) where
  -- The limit of 8 control frames a second.
  unfoldable pub count_control : ℕ → Assembly → Session T → Turn T
  count_control now a s =
      let fresh = ltb (a.ctrl_window_start + second) now in
      let start = if fresh then now else a.ctrl_window_start in
      let count = if fresh then 1 else a.ctrl_count + 1 in
      let a' = record a { ctrl_window_start = start; ctrl_count = count } in
      if ltb 8 count then raised connection_closed_error a' s else again a' s

  unfoldable pub after_pong : ℕ → Assembly → Result (Unit {0}) × Session T → Turn T
  after_pong now a (ok u, s) = count_control now a s
  after_pong now a (err e, s) = raised e a s

  unfoldable pub handle_control : PacketType → ℕ → Assembly → Session T → Turn T
  unfolding after_pong
  handle_control type now a s =
      if ltb 0 (length a.assembled_payload)
      then raised sequence_error a s
      else if same_type type ping
      then after_pong now a (send_pong P tr s)
      else count_control now a s

  unfoldable pub handle_rekey : Bytes → Assembly → Session T → Turn T
  handle_rekey plaintext a s =
      if ltb 0 (length a.assembled_payload)
      then raised sequence_error a s
      else if not (length plaintext == 32)
      then raised payload_error a s
      else again a (rotate_keys P tr false plaintext s)

  -- The end of a DATA or DATA_FRAG frame that stands in order.
  unfoldable pub append_chunk : Frame → Bytes → ℕ → Assembly → Session T → Turn T
  append_chunk f plaintext expected a s =
      let a' = record a {
        assembled_payload = a.assembled_payload ++ plaintext;
        frame_count = a.frame_count + 1;
        expected_frag_seq = expected;
      } in
      if same_type f.type data_packet
      then returned a'.assembled_payload s
      else if leb usmp_max_frames a'.frame_count
      then raised payload_error a' s
      else again a' s

  unfoldable pub handle_data : Frame → Bytes → Assembly → Session T → Turn T
  unfolding append_chunk
  handle_data f plaintext a s =
      if ltb 0 a.frame_count
      then (if not (f.seq == a.expected_frag_seq)
          then raised sequence_error a s
          else append_chunk f plaintext (a.expected_frag_seq + 1) a s)
      else append_chunk f plaintext (f.seq + 1) a s

  -- The second `try` block.
  unfoldable pub handle_frame : Frame → Bytes → ℕ → Assembly → Session T → Turn T
  handle_frame f plaintext now a s =
      if same_type f.type bye_packet
      then raised connection_closed_error a s
      else if same_type f.type ping || same_type f.type pong
      then handle_control f.type now a s
      else if same_type f.type rekey_packet
      then handle_rekey plaintext a s
      else if not (is_data f.type)
      then raised value_error a s
      else handle_data f plaintext a s

  -- `except (FrameError, SequenceError, ValueError)`: over UDP the partial message is dropped.
  unfoldable pub absorb : Turn T → Turn T
  absorb (again a s) = again a s
  absorb (returned bytes s) = returned bytes s
  absorb (raised e a s) =
      if (is_frame_error e || (is_sequence_error e || is_value_error e)) && not tr.is_reliable
      then again (record a { assembled_payload = []; frame_count = 0; expected_frag_seq = 0 }) s
      else raised e a s

  -- From the overflow test on, with the frame decrypted.
  unfoldable pub accept_frame : Frame → Bytes → ℕ → Assembly → Session T → Turn T
  accept_frame f plaintext now a s =
      if leb max_seq f.seq
      then raised sequence_error a s
      else if not tr.is_reliable
      then absorb (
          handle_frame f plaintext now a (record s {
            info = mark_seen f.seq s.info;
            transport = tr.confirm_authenticated f.seq s.transport;
          }))
      else if not (f.seq == s.info.rx_seq)
      then raised sequence_error a s
      else absorb (
          handle_frame f plaintext now a
            (record s { info = record s.info { rx_seq = s.info.rx_seq + 1 } }))

  -- `except (USMPError, struct.error)` round the read and the decryption.
  unfoldable pub read_failed : Error → Assembly → Session T → Turn T
  read_failed e a s =
      if (is_usmp_error e || is_struct_error e) && not tr.is_reliable
      then again a s
      else raised e a s

  -- What decryption gave, and the time stamp.
  unfoldable pub opened : Frame → Result Bytes → Arrival → Assembly → Session T → Turn T
  opened f (ok plaintext) arrival a s =
      accept_frame f plaintext arrival.handled_at a (record s { last_recv = arrival.read_at })
  opened f (err e) arrival a s = read_failed e a s

  -- A turn of the loop.
  unfoldable pub recv_turn : Result Frame → Arrival → Assembly → Session T → Turn T
  recv_turn (err e) arrival a s = read_failed e a s
  recv_turn (ok f) arrival a s =
      if not tr.is_reliable && is_replay f.seq s.info
      then again a s
      else opened f (open_frame P f s.info) arrival a s

  -- After a turn: `continue` goes on with the loop over what is left.
  unfoldable pub resume :
      (Assembly → Session T → Turn T × List Arrival) → List Arrival → Turn T → Turn T × List Arrival
  resume loop xs (again a s) = loop a s
  resume loop xs (returned bytes s) = (returned bytes s, xs)
  resume loop xs (raised e a s) = (raised e a s, xs)

  -- The loop: how it ends, and what has not been read. When nothing more arrives it is at `again`.
  unfoldable pub recv_loop : List Arrival → Assembly → Session T → Turn T × List Arrival
  unfolding resume
  recv_loop [] a s = (again a s, [])
  recv_loop (x ∷ xs) a s = resume (recv_loop xs) xs (recv_turn x.frame x a s)

  -- `effective_timeout is not None`.
  abbrev pub is_timed : Option ℕ → Option ℕ → Bool
  is_timed (some t) own = true
  is_timed none (some t) = true
  is_timed none none = false

  -- `except TimeoutError: raise USMPTimeoutError`, for a call that still waits at its deadline.
  unfoldable pub recv_result : Option ℕ → Turn T → Option (Result Bytes) × Session T
  recv_result timeout (returned bytes s) = (some (ok bytes), s)
  recv_result timeout (raised e a s) = (some (err e), s)
  recv_result timeout (again a s) =
      (if is_timed timeout s.recv_timeout then some (err usmp_timeout_error) else none, s)

  -- `recv`, which begins at the time `start`, with what arrives up to its deadline if it has one.
  -- `none` is a call that still waits.
  unfoldable pub recv : Option ℕ → ℕ → List Arrival → Session T → Option (Result Bytes) × Session T
  unfolding recv_result
  recv timeout start arrivals s =
      recv_result timeout (recv_loop arrivals (empty_assembly start) s).0
