-- ===== src/Session/Window/Tracks.antt =====
-- The replay window against its specification, the list of the sequence numbers accepted so far.
use usmp.Prelude.{
  ℕ, ◌+◌, ◌-◌, ◌*◌, ◌^◌, ◌≤◌, ◌<◌, ◌≡◌, Bool, true, false, not, ◌||◌, bit_and, bit_or, List, [],
  ◌∷◌, ltb, leb, ◌==◌, if◌then◌else◌, arith, Bool-cases, inl, inr, lt_of_ltb, le_of_ltb,
}
use usmp.Prelude.Bits.{
  test_bit, bit_and_single, test_bit-or, test_bit-shl, test_bit-mask, zero-test_bit, test_bit-one,
}
use native.Mathlib.Nat.{one-le-pow}
use usmp.Types.{SessionInfo}
use usmp.Session.Window.{is_replay, shifted_bitmap, mark_seen}

abbrev pub contains : ℕ → List ℕ → Bool
contains x [] = false
contains x (y ∷ ys) = x == y || contains x ys

-- The window's state stands for a history of accepted numbers: none is above the highest, and for the
-- last 64 numbers the bits tell which were accepted.
pub record Tracks (info : SessionInfo) (history : List ℕ) : Type 0 where
  pub below : (x : ℕ) → contains x history ≡ true → x ≤ info.rx_seq
  pub bits :
      (x : ℕ)
      → x ≤ info.rx_seq
      → info.rx_seq < x + 64
      → test_bit info.rx_window_bitmap (info.rx_seq - x) ≡ contains x history

pow_pos : (n : ℕ) → 0 < 2 ^ n
pow_pos n = one-le-pow n 2 (omega arith)

-- The test on the bitmap reads one bit.
pub bit_test : (b j : ℕ) → not (bit_and b (1 * 2 ^ j) == 0) ≡ test_bit b j
bit_test b j =
    let e : 1 * 2 ^ j ≡ 2 ^ j = omega arith in
    rw (e, bit_and_single j b) (ground (arith, pow_pos j))

-- The code's test is the specification's: too old, or accepted before.
pub is_replay-eq :
    (info : SessionInfo) (history : List ℕ) (seq : ℕ)
    → Tracks info history
    → is_replay seq info ≡ (leb (seq + 64) info.rx_seq || contains seq history)
unfolding is_replay
is_replay-eq info history seq t =
    ground (arith, bit_test info.rx_window_bitmap (info.rx_seq - seq), t.below seq, t.bits seq)

pub shifted_bits :
    (b shift j : ℕ)
    → j < 64
    → test_bit (shifted_bitmap b shift) j ≡ (
        if ltb j shift
        then j == 0
        else if ltb shift 64
        then test_bit b (j - shift) || j == 0
        else j == 0)
unfolding shifted_bitmap
shifted_bits b shift j h = elim (Bool-cases (ltb shift 64)) [
  | inl near ↦
      rw
        (
          near,
          test_bit-or 0 (bit_and (b * 2 ^ shift) 0xffff_ffff_ffff_ffff) j,
          test_bit-mask 64 (b * 2 ^ shift) j,
          test_bit-shl shift b j,
        )
        (ground arith)
  | inr far ↦ rw (far, test_bit-one j) (ground arith)
]

module _ (info : SessionInfo) (history : List ℕ) (seq : ℕ) (t : Tracks info history) where
  advance-bits :
      (x : ℕ)
      → info.rx_seq < seq
      → x ≤ seq
      → seq < x + 64
      → test_bit (shifted_bitmap info.rx_window_bitmap (seq - info.rx_seq)) (seq - x)
        ≡ contains x (seq ∷ history)
  advance-bits x up le near =
      rw (shifted_bits info.rx_window_bitmap (seq - info.rx_seq) (seq - x) (omega arith))
        (ground (arith, t.below x, t.bits x))

  fill-bits :
      (x : ℕ)
      → seq ≤ info.rx_seq
      → x ≤ info.rx_seq
      → info.rx_seq < x + 64
      → test_bit (bit_or info.rx_window_bitmap (1 * 2 ^ (info.rx_seq - seq))) (info.rx_seq - x)
        ≡ contains x (seq ∷ history)
  fill-bits x old le near =
      let e : 1 * 2 ^ (info.rx_seq - seq) ≡ 2 ^ (info.rx_seq - seq) = omega arith in
      rw
        (
          e,
          test_bit-or (info.rx_seq - seq) info.rx_window_bitmap (info.rx_seq - x),
          t.bits x le near,
        )
        (ground arith)

  -- Accepting a number adds it to the history.
  pub mark_seen-Tracks : Tracks (mark_seen seq info) (seq ∷ history)
  unfolding mark_seen
  mark_seen-Tracks = elim (Bool-cases (ltb info.rx_seq seq)) [
    | inl up ↦ rw up (record {
      below = λ x h. ground (arith, t.below x);
      bits = λ x le near. advance-bits x (lt_of_ltb _ _ up) le near;
    })
    | inr old ↦ rw old (record {
      below = λ x h. ground (arith, t.below x);
      bits = λ x le near. fill-bits x (le_of_ltb _ _ old) le near;
    })
  ]

-- A session begins with an empty history.
pub fresh-Tracks :
    (info : SessionInfo) → info.rx_seq ≡ 0 → info.rx_window_bitmap ≡ 0 → Tracks info []
fresh-Tracks info hs hb = record { below = λ x h. cc; bits = λ x le near. rw (hb, zero-test_bit) }

pub mark_seen-tx_seq : (seq : ℕ) (info : SessionInfo) → (mark_seen seq info).tx_seq ≡ info.tx_seq
unfolding mark_seen
mark_seen-tx_seq seq info = ground arith
