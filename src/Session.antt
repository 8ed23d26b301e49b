-- ===== src/Session.antt =====
-- sdk/python/src/usmp/_session.py: the state of a session and its sending side. Each method runs
-- under the send lock as one step.
pub mod Window
pub mod Receive
pub mod Keeps
pub mod Nonce
pub mod Delivery
pub mod Total
pub mod Rekey
use usmp.Prelude.{
  ℕ, zero, suc, ◌+◌, ◌*◌, min, Bool, true, false, not, ◌&&◌, ◌||◌, Option, none, some, [], ◌∷◌,
  ◌++◌, Bytes, length, take, drop, ltb, leb, ◌==◌, if◌then◌else◌,
}
use usmp.Errors.{
  Error, sequence_error, payload_error, is_sequence_error, is_os_error, Result, ok, err, ◌>>=◌,
}
use usmp.Types.{
  PacketType, data_packet, data_frag, ping, pong, rekey as rekey_packet, bye as bye_packet,
  type_int, same_type, usmp_magic, usmp_version, usmp_max_data_len, usmp_max_frames, SessionInfo,
}
use usmp.Struct.{pack_u32}
use usmp.Crypto.{encrypt, derive_rekey_keys}
use usmp.Crypto.Backend.{Primitives}
use usmp.Transport.{Transport}

-- `USMPSession`: `_info`, `_recv_timeout`, `_last_recv`, `_closed` and `_transport`. Times are whole
-- nanoseconds.
pub record Session (T : Type 0) : Type 0 where
  pub info : SessionInfo
  pub recv_timeout : Option ℕ
  pub last_recv : ℕ
  pub closed : Bool
  pub transport : T

-- `USMPSession(transport, info)`, built at the time `now`.
abbrev pub new_session : {T : Type 0} → SessionInfo → ℕ → T → Session T
new_session info now transport = record {
  info = info;
  recv_timeout = none;
  last_recv = now;
  closed = false;
  transport = transport;
}

-- The last sequence number.
abbrev pub max_seq : ℕ
max_seq = 0xffff_ffff

-- `struct.pack("<I", seq) + self._info.session_id[:8]`.
unfoldable pub frame_nonce : ℕ → SessionInfo → Result Bytes
frame_nonce seq info = pack_u32 seq >>= λ digits. ok (digits ++ take 8 info.session_id)

-- The nonce and the ciphertext of `_send_encrypted_locked`.
unfoldable pub seal_frame : Primitives → PacketType → Bytes → SessionInfo → Result Bytes
seal_frame P ptype plaintext info = do
  nonce ← frame_nonce info.tx_seq info
  encrypt P info.tx_key nonce info.tx_seq (type_int ptype) usmp_version usmp_magic plaintext
      info.cipher_suite

module _ (P : Primitives) {T : Type 0} (tr : Transport T) where
  -- The last two lines of `_send_encrypted_locked`: the sequence number is spent before the write.
  unfoldable pub write_sealed : PacketType → Bytes → Session T → Result (Unit {0}) × Session T
  write_sealed ptype ciphertext s =
      let seq = s.info.tx_seq in
      let info = record s.info { tx_seq = min (seq + 1) max_seq } in
      let (r, t) = tr.write_frame ptype ciphertext seq s.transport in
      (r, record s { info = info; transport = t })

  unfoldable pub send_sealed : PacketType → Result Bytes → Session T → Result (Unit {0}) × Session T
  send_sealed ptype (ok ciphertext) s = write_sealed ptype ciphertext s
  send_sealed ptype (err e) s = (err e, s)

  unfoldable pub send_encrypted_locked :
      PacketType → Bytes → Session T → Result (Unit {0}) × Session T
  unfolding send_sealed
  send_encrypted_locked ptype plaintext s =
      if leb max_seq s.info.tx_seq && not (same_type ptype bye_packet)
      then (err sequence_error, s)
      else send_sealed ptype (seal_frame P ptype plaintext s.info) s

  -- After a chunk: an exception leaves the loop, `break` ends it for no data, or it goes on.
  unfoldable pub after_chunk :
      Bool
      → (Session T → Option (Result (Unit {0}) × Session T))
      → Result (Unit {0}) × Session T
      → Option (Result (Unit {0}) × Session T)
  after_chunk is_empty loop (ok u, s) = if is_empty then some (ok tt, s) else loop s
  after_chunk is_empty loop (err e, s) = some (err e, s)

  -- The loop of `send`; `none` means that the fuel ran out.
  unfoldable pub send_loop : ℕ → Bytes → ℕ → Session T → Option (Result (Unit {0}) × Session T)
  unfolding after_chunk
  send_loop zero bytes offset s = none
  send_loop (suc fuel) bytes offset s =
      let chunk = take usmp_max_data_len (drop offset bytes) in
      let is_frag = ltb (offset + length chunk) (length bytes) in
      let sent = send_encrypted_locked (if is_frag then data_frag else data_packet) chunk s in
      if ltb offset (length bytes) || (length bytes == 0)
      then after_chunk (length bytes == 0) (send_loop fuel bytes (offset + length chunk)) sent
      else some (ok tt, s)

  unfoldable pub send : Bytes → Session T → Option (Result (Unit {0}) × Session T)
  send bytes s =
      if ltb (usmp_max_data_len * usmp_max_frames) (length bytes)
      then some (err payload_error, s)
      else send_loop (length bytes + 2) bytes 0 s

  unfoldable pub send_ping : Session T → Result (Unit {0}) × Session T
  send_ping = send_encrypted_locked ping []

  unfoldable pub send_pong : Session T → Result (Unit {0}) × Session T
  send_pong = send_encrypted_locked pong []

  -- New keys, and every counter from the start: the common end of `rekey` and of a received REKEY.
  unfoldable pub rotate_keys : Bool → Bytes → Session T → Session T
  rotate_keys is_initiator salt s =
      let (new_tx, new_rx) =
        derive_rekey_keys P is_initiator s.info.tx_key s.info.rx_key s.info.session_id salt in
      record s {
        info = record s.info {
          tx_key = new_tx;
          rx_key = new_rx;
          tx_seq = 0;
          rx_seq = 0;
          rx_window_bitmap = 0;
        };
        transport = tr.set_session_keys new_tx new_rx s.transport;
      }

  unfoldable pub after_rekey : Bytes → Result (Unit {0}) × Session T → Result (Unit {0}) × Session T
  after_rekey salt (ok u, s) = (ok tt, rotate_keys true salt s)
  after_rekey salt (err e, s) = (err e, s)

  -- `salt` is `os.urandom(32)`.
  unfoldable pub rekey : Bytes → Session T → Result (Unit {0}) × Session T
  unfolding after_rekey
  rekey salt s = after_rekey salt (send_encrypted_locked rekey_packet salt s)

  -- `except (SequenceError, OSError)`, and the `finally`.
  abbrev pub farewell : Result (Unit {0}) × Session T → Result (Unit {0}) × Session T
  farewell (ok u, s) = (ok tt, record s { transport = tr.close s.transport })
  farewell (err e, s) = (
    if is_sequence_error e || is_os_error e then ok tt else err e,
    record s { transport = tr.close s.transport },
  )

  unfoldable pub bye : Session T → Result (Unit {0}) × Session T
  bye s =
      if s.closed
      then (ok tt, s)
      else farewell (send_encrypted_locked bye_packet [] (record s { closed = true }))
