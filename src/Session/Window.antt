-- ===== src/Session/Window.antt =====
-- The sliding replay window of `recv` over UDP.
pub mod Tracks
pub mod History
pub mod Replay
pub mod Fresh
pub mod Keeps
pub mod Calls
use usmp.Prelude.{
  ℕ, ◌+◌, ◌-◌, ◌*◌, ◌^◌, Bool, true, false, not, ◌&&◌, ◌||◌, bit_and, bit_or, ltb, leb, ◌==◌,
  if◌then◌else◌,
}
use usmp.Types.{SessionInfo}

-- The two tests before decryption: too old, or seen. Python's `rx_seq - 64` may be negative, so the
-- 64 stands on the other side.
unfoldable pub is_replay : ℕ → SessionInfo → Bool
is_replay seq info =
    if leb (seq + 64) info.rx_seq
    then true
    else leb seq info.rx_seq
      && not (bit_and info.rx_window_bitmap (1 * 2 ^ (info.rx_seq - seq)) == 0)

-- The bitmap moved up by `shift`.
unfoldable pub shifted_bitmap : ℕ → ℕ → ℕ
shifted_bitmap bitmap shift =
    if ltb shift 64 then bit_or (bit_and (bitmap * 2 ^ shift) 0xffff_ffff_ffff_ffff) 1 else 1

-- The update after decryption.
unfoldable pub mark_seen : ℕ → SessionInfo → SessionInfo
mark_seen seq info =
    if ltb info.rx_seq seq
    then (record info {
      rx_window_bitmap = shifted_bitmap info.rx_window_bitmap (seq - info.rx_seq);
      rx_seq = seq;
    })
    else (record info {
      rx_window_bitmap = bit_or info.rx_window_bitmap (1 * 2 ^ (info.rx_seq - seq));
    })
