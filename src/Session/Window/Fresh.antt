-- ===== src/Session/Window/Fresh.antt =====
-- The numbers above one that the window takes.
use usmp.Prelude.{
  ℕ, ◌-◌, ◌≤◌, ◌<◌, ◌≡◌, refl, false, bit_or, ◌*◌, ◌^◌, arith, ltb, Bool-cases, inl, inr,
}
use usmp.Types.{SessionInfo}
use usmp.Session.Window.{is_replay, mark_seen}
use usmp.Prelude.Bits.{test_bit-or}
use usmp.Session.Window.Tracks.{bit_test}

-- None of the numbers from `seq` on is refused.
abbrev pub IsFreshFrom : ℕ → SessionInfo → Type 0
IsFreshFrom seq info = (later : ℕ) → seq ≤ later → is_replay later info ≡ false

pub mark_seen-IsFreshFrom :
    (seq next : ℕ) (info : SessionInfo)
    → seq < next
    → IsFreshFrom seq info
    → IsFreshFrom next (mark_seen seq info)
unfolding is_replay mark_seen
mark_seen-IsFreshFrom seq next info lt fresh later le = ground (
  arith,
  fresh later,
  bit_test info.rx_window_bitmap (info.rx_seq - later),
  bit_test (bit_or info.rx_window_bitmap (1 * 2 ^ (info.rx_seq - seq))) (info.rx_seq - later),
  test_bit-or (info.rx_seq - seq) info.rx_window_bitmap (info.rx_seq - later),
)

-- The window is all that changes.
pub record Keeps (info info' : SessionInfo) : Type 0 where
  pub key : info'.rx_key ≡ info.rx_key
  pub session : info'.session_id ≡ info.session_id
  pub suite : info'.cipher_suite ≡ info.cipher_suite

pub mark_seen-Keeps : (seq : ℕ) (info : SessionInfo) → Keeps info (mark_seen seq info)
unfolding mark_seen
mark_seen-Keeps seq info = elim (Bool-cases (ltb info.rx_seq seq)) [
  | inl newer ↦ rw newer (record { key = refl; session = refl; suite = refl })
  | inr older ↦ rw older (record { key = refl; session = refl; suite = refl })
]
