-- ===== src/Prelude/Bits.antt =====
-- Laws of `&`, `|`, `^` and single bits at variables, from the digit recursion that the native
-- operations stand for.
use Prim.Native.Nat.{
  ℕ, zero, suc, ◌+◌, ◌-◌, ◌*◌, ◌/◌, ◌%◌, ◌^◌, ◌≤◌, ◌<◌, min, max, digits, bitwise, bit_and, bit_or,
  bit_xor, bit_and-bitwise, bit_or-bitwise, bit_xor-bitwise, differ,
}
use native.Mathlib.Nat.{pow-suc, one-le-pow}
use mathlib.Core.WellFounded
use mathlib.Core.WellFounded.{Acc, WellFounded as IsWellFounded}
use mathlib.Core.Path.{◌≡◌, refl, ap}
use mathlib.Core.Logic.{◌⊎◌, inl, inr}
use mathlib.Core.Bool.{Bool, false, ◌&&◌, ◌||◌}
use usmp.Prelude.Tests.{◌==◌, ltb, if◌then◌else◌, ltb_of_lt, ltb_of_le}
use native.Mathlib.Omega.{arith}

-- Fuel beyond the first argument is not used.
digits_enough :
    (low : ℕ → ℕ) (bit : ℕ → ℕ → ℕ) (fuel extra x y : ℕ)
    → x ≤ fuel
    → digits low bit (fuel + extra) x y ≡ digits low bit fuel x y
digits_enough low bit zero zero x y h = refl
digits_enough low bit zero (suc extra) zero y h =
    let e : 0 + suc extra ≡ suc extra = omega arith in rw e refl
digits_enough low bit (suc fuel) extra zero y h =
    let e : suc fuel + extra ≡ suc (fuel + extra) = omega arith in rw e refl
digits_enough low bit (suc fuel) extra (suc x) y h =
    let below : suc x / 2 ≤ fuel = omega arith in
    let e : suc fuel + extra ≡ suc (fuel + extra) = omega arith in
    rw (e, digits_enough low bit fuel extra (suc x / 2) (y / 2) below) refl
digits_enough low bit zero (suc extra) (suc x) y h = absurd (omega arith)

-- One step of the recursion, with the fuel that the halves need.
low_digit :
    (low : ℕ → ℕ) (bit : ℕ → ℕ → ℕ) (x y : ℕ)
    → 0 < x
    → bitwise low bit x y ≡ bit (x % 2) (y % 2) + 2 * bitwise low bit (x / 2) (y / 2)
low_digit low bit zero y h = absurd (omega arith)
low_digit low bit (suc x) y h =
    let spare : suc x / 2 + (x - suc x / 2) ≡ x = omega arith in
    let trimmed : digits low bit x (suc x / 2) (y / 2)
        ≡ digits low bit (suc x / 2) (suc x / 2) (y / 2) =
      rw spare at
        (digits_enough low bit (suc x / 2) (x - suc x / 2) (suc x / 2) (y / 2) (omega arith)) in
    omega (arith, trimmed)

zero_or_positive : (n : ℕ) → (n ≡ 0) ⊎ (0 < n)
zero_or_positive zero = inl refl
zero_or_positive (suc n) = inr (omega arith)

pub bit_and_step : (a b : ℕ) → bit_and a b ≡ min (a % 2) (b % 2) + 2 * bit_and (a / 2) (b / 2)
bit_and_step a b = simp bit_and-bitwise (elim (zero_or_positive a) [
  | inl empty ↦ rw empty (omega arith)
  | inr positive ↦ low_digit (λ y. 0) min a b positive
])

pub bit_or_step : (a b : ℕ) → bit_or a b ≡ max (a % 2) (b % 2) + 2 * bit_or (a / 2) (b / 2)
bit_or_step a b = simp bit_or-bitwise (elim (zero_or_positive a) [
  | inl empty ↦ rw empty (omega arith)
  | inr positive ↦ low_digit (λ y. y) max a b positive
])

differ_bits : (x y : ℕ) → x < 2 → y < 2 → differ x y ≡ (x + y) % 2
differ_bits zero y h k = omega arith
differ_bits (suc zero) zero h k = refl
differ_bits (suc zero) (suc zero) h k = refl
differ_bits (suc zero) (suc (suc y)) h k = absurd (omega arith)
differ_bits (suc (suc x)) y h k = absurd (omega arith)

pub bit_xor_step : (a b : ℕ) → bit_xor a b ≡ (a + b) % 2 + 2 * bit_xor (a / 2) (b / 2)
bit_xor_step a b = simp bit_xor-bitwise (elim (zero_or_positive a) [
  | inl empty ↦ rw empty (omega arith)
  | inr positive ↦ omega (
    arith,
    low_digit (λ y. y) differ a b positive,
    differ_bits (a % 2) (b % 2) (omega arith) (omega arith),
  )
])

acc_below : (k n : ℕ) → n < k → Acc ◌<◌ n
acc_below zero n h = absurd (omega arith)
acc_below (suc k) n h = Acc.intro n (λ m hm. acc_below k m (omega arith))

pub lt_wf : IsWellFounded ◌<◌
lt_wf = record { apply = λ n. acc_below (suc n) n (omega arith) }

-- Induction on the binary digits.
by_halves : {C : ℕ → Type 0} → C 0 → ((n : ℕ) → 0 < n → C (n / 2) → C n) → (n : ℕ) → C n
by_halves {C} base step n = WellFounded.induction lt_wf {C = C} n go
  where
    go : (k : ℕ) → ((m : ℕ) → m < k → C m) → C k
    go zero below = base
    go (suc k) below = step (suc k) (omega arith) (below (suc k / 2) (omega arith))

pub bit_or-zero : (a : ℕ) → bit_or a 0 ≡ a
bit_or-zero = by_halves {C = λ n. bit_or n 0 ≡ n} refl (λ n h ih. omega (arith, bit_or_step n 0))

pub bit_and-zero : (a : ℕ) → bit_and a 0 ≡ 0
bit_and-zero = by_halves {C = λ n. bit_and n 0 ≡ 0} refl (λ n h ih. omega (arith, bit_and_step n 0))

pub bit_xor-zero : (a : ℕ) → bit_xor a 0 ≡ a
bit_xor-zero = by_halves {C = λ n. bit_xor n 0 ≡ n} refl (λ n h ih. omega (arith, bit_xor_step n 0))

pub zero-bit_xor : (b : ℕ) → bit_xor 0 b ≡ b
zero-bit_xor b = bit_xor-bitwise 0 b

bit_xor_self : (b : ℕ) → bit_xor b b ≡ 0
bit_xor_self = by_halves {C = λ n. bit_xor n n ≡ 0} refl (λ n h ih. omega (arith, bit_xor_step n n))

-- `x ^ b ^ b = x`.
pub bit_xor_cancel : (a b : ℕ) → bit_xor (bit_xor a b) b ≡ a
bit_xor_cancel a =
    WellFounded.induction lt_wf {C = λ n. (b : ℕ) → bit_xor (bit_xor n b) b ≡ n} a step
  where
    step :
        (n : ℕ)
        → ((m : ℕ) → m < n → (b : ℕ) → bit_xor (bit_xor m b) b ≡ m)
        → (b : ℕ) → bit_xor (bit_xor n b) b ≡ n
    step zero ih b = rw zero-bit_xor (bit_xor_self b)
    step (suc n) ih b =
        let y : ℕ = bit_xor (suc n) b in
        let q : y / 2 ≡ bit_xor (suc n / 2) (b / 2) = omega (arith, bit_xor_step (suc n) b) in
        let down : bit_xor (y / 2) (b / 2) ≡ suc n / 2 =
          rw q (ih (suc n / 2) (omega arith) (b / 2)) in
        omega (arith, bit_xor_step y b, bit_xor_step (suc n) b, down)

pub bit_xor_comm : (a b : ℕ) → bit_xor a b ≡ bit_xor b a
bit_xor_comm a = WellFounded.induction lt_wf {C = λ n. (b : ℕ) → bit_xor n b ≡ bit_xor b n} a step
  where
    step :
        (n : ℕ)
        → ((m : ℕ) → m < n → (b : ℕ) → bit_xor m b ≡ bit_xor b m)
        → (b : ℕ) → bit_xor n b ≡ bit_xor b n
    step zero ih b = omega (arith, zero-bit_xor b, bit_xor-zero b)
    step (suc n) ih b = omega (
      arith,
      bit_xor_step (suc n) b,
      bit_xor_step b (suc n),
      ih (suc n / 2) (omega arith) (b / 2),
    )

-- The result has no more bits than its arguments.
pub bit_xor_lt : (k a b : ℕ) → a < 2 ^ k → b < 2 ^ k → bit_xor a b < 2 ^ k
bit_xor_lt zero a b p q =
    let ea : a ≡ 0 = omega arith in let eb : b ≡ 0 = omega arith in rw (ea, eb) (omega arith)
bit_xor_lt (suc k) a b p q = omega (
  arith,
  pow-suc 2 k,
  bit_xor_step a b,
  bit_xor_lt k (a / 2) (b / 2) (omega (arith, pow-suc 2 k)) (omega (arith, pow-suc 2 k)),
)

-- A top bit that only the second argument has is in the result.
pub bit_xor_top : (k a b : ℕ) → a < 2 ^ k → 2 ^ k ≤ b → b < 2 ^ suc k → 2 ^ k ≤ bit_xor a b
bit_xor_top zero a b p q r =
    let ea : a ≡ 0 = omega arith in let eb : b ≡ 1 = omega arith in rw (ea, eb) (omega arith)
bit_xor_top (suc k) a b p q r = omega (
  arith,
  pow-suc 2 k,
  pow-suc 2 (suc k),
  bit_xor_step a b,
  bit_xor_top k (a / 2) (b / 2) (omega (arith, pow-suc 2 k)) (omega (arith, pow-suc 2 k))
      (omega (arith, pow-suc 2 k, pow-suc 2 (suc k))),
)

-- Bit `j` of `x`.
pub test_bit : ℕ → ℕ → Bool
test_bit x zero = x % 2 == 1
test_bit x (suc j) = test_bit (x / 2) j

-- `x & (1 << j)` is nonzero exactly when bit `j` is set.
pub bit_and_single : (j x : ℕ) → bit_and x (2 ^ j) ≡ (if test_bit x j then 2 ^ j else 0)
unfolding test_bit
bit_and_single zero x = ground (arith, bit_and_step x 1, bit_and-zero (x / 2))
bit_and_single (suc j) x =
    let up : 2 ^ suc j ≡ 2 ^ j * 2 = pow-suc 2 j in
    let half : 2 ^ suc j / 2 ≡ 2 ^ j = omega arith in
    let now : bit_and x (2 ^ suc j) ≡ bit_and (x / 2) (2 ^ j) * 2 =
      rw (bit_and_step x (2 ^ suc j), half) (omega arith) in
    ground (arith, now, up, bit_and_single j (x / 2))

-- `x | (1 << k)` sets bit `k` and leaves the others.
pub test_bit-or : (k x j : ℕ) → test_bit (bit_or x (2 ^ k)) j ≡ (test_bit x j || (j == k))
unfolding test_bit
test_bit-or zero x zero = ground (arith, bit_or_step x 1)
test_bit-or zero x (suc j) =
    let e : bit_or x 1 / 2 ≡ x / 2 = omega (arith, bit_or_step x 1, bit_or-zero (x / 2)) in
    rw e (ground arith)
test_bit-or (suc k) x zero = ground (arith, pow-suc 2 k, bit_or_step x (2 ^ suc k))
test_bit-or (suc k) x (suc j) =
    let up : 2 ^ suc k ≡ 2 ^ k * 2 = pow-suc 2 k in
    let half : 2 ^ suc k / 2 ≡ 2 ^ k = omega arith in
    let e : bit_or x (2 ^ suc k) / 2 ≡ bit_or (x / 2) (2 ^ k) =
      rw (← half) (omega (arith, bit_or_step x (2 ^ suc k))) in
    rw e (ground (arith, test_bit-or k (x / 2) j))

-- `x << s` moves bit `j` to bit `j + s`.
pub test_bit-shl :
    (s x j : ℕ) → test_bit (x * 2 ^ s) j ≡ (if ltb j s then false else test_bit x (j - s))
unfolding test_bit
test_bit-shl zero x j =
    let e : x * 2 ^ 0 ≡ x = omega arith in
    let d : j - 0 ≡ j = omega arith in rw (e, d) (ground arith)
test_bit-shl (suc s) x zero = ground (arith, pow-suc 2 s, ap (λ (t : ℕ). x * t) (pow-suc 2 s))
test_bit-shl (suc s) x (suc j) =
    let e : x * 2 ^ suc s / 2 ≡ x * 2 ^ s = omega (arith, ap (λ (t : ℕ). x * t) (pow-suc 2 s)) in
    let d : suc j - suc s ≡ j - s = omega arith in rw (e, d, test_bit-shl s x j) (ground arith)

pub zero-test_bit : (j : ℕ) → test_bit 0 j ≡ false
unfolding test_bit
zero-test_bit zero = refl
zero-test_bit (suc j) = zero-test_bit j

-- `x & (2 ^ n - 1)` keeps the bits below `n`.
pub test_bit-mask : (n x j : ℕ) → test_bit (bit_and x (2 ^ n - 1)) j ≡ (ltb j n && test_bit x j)
unfolding test_bit
test_bit-mask zero x j = rw (bit_and-zero, zero-test_bit, ltb_of_le j 0 (omega arith)) refl
test_bit-mask (suc n) x zero =
    rw (ltb_of_lt 0 (suc n) (omega arith))
      (ground (arith, pow-suc 2 n, one-le-pow n 2, bit_and_step x (2 ^ suc n - 1)))
test_bit-mask (suc n) x (suc j) =
    let half : (2 ^ suc n - 1) / 2 ≡ 2 ^ n - 1 = omega (arith, pow-suc 2 n, one-le-pow n 2) in
    let e : bit_and x (2 ^ suc n - 1) / 2 ≡ bit_and (x / 2) (2 ^ n - 1) =
      rw (← half) (omega (arith, bit_and_step x (2 ^ suc n - 1))) in
    rw (e, test_bit-mask n (x / 2) j) (ground arith)

pub test_bit-one : (j : ℕ) → test_bit 1 j ≡ (j == 0)
unfolding test_bit
test_bit-one zero = refl
test_bit-one (suc j) = rw zero-test_bit (ground arith)
