-- ===== src/Session/Window/Keeps.antt =====
-- The refusals of the window, as it takes further numbers.
use usmp.Prelude.{ℕ, ◌-◌, ◌*◌, ◌^◌, ◌≡◌, true, List, [], ◌∷◌, bit_or, arith, Bool-cases, inl, inr}
use usmp.Prelude.Bits.{test_bit-or}
use usmp.Types.{SessionInfo}
use usmp.Session.Window.{is_replay, mark_seen, shifted_bitmap}
use usmp.Session.Window.Tracks.{bit_test, shifted_bits}
use usmp.Session.Window.History.{accept_seq, accept_all}

-- The update keeps a refusal: the number gets too old, or its bit moves along.
pub mark_seen-refuses :
    (seq other : ℕ) (info : SessionInfo)
    → is_replay seq info ≡ true
    → is_replay seq (mark_seen other info) ≡ true
unfolding is_replay mark_seen
mark_seen-refuses seq other info h = ground (
  arith,
  bit_test info.rx_window_bitmap (info.rx_seq - seq),
  bit_test (shifted_bitmap info.rx_window_bitmap (other - info.rx_seq)) (other - seq),
  shifted_bits info.rx_window_bitmap (other - info.rx_seq) (other - seq),
  bit_test (bit_or info.rx_window_bitmap (1 * 2 ^ (info.rx_seq - other))) (info.rx_seq - seq),
  test_bit-or (info.rx_seq - other) info.rx_window_bitmap (info.rx_seq - seq),
)

accept_seq-refuses :
    (seq other : ℕ) (state : SessionInfo × List ℕ)
    → is_replay seq state.0 ≡ true
    → is_replay seq (accept_seq other state).0 ≡ true
unfolding accept_seq
accept_seq-refuses seq other (info, accepted) h = elim (Bool-cases (is_replay other info)) [
  | inl refused ↦ rw refused h
  | inr fresh ↦ rw fresh (mark_seen-refuses seq other info h)
]

pub accept_all-refuses :
    (seqs : List ℕ) (seq : ℕ) (state : SessionInfo × List ℕ)
    → is_replay seq state.0 ≡ true
    → is_replay seq (accept_all seqs state).0 ≡ true
unfolding accept_all
accept_all-refuses [] seq state h = h
accept_all-refuses (x ∷ xs) seq state h =
    accept_all-refuses xs seq (accept_seq x state) (accept_seq-refuses seq x state h)
