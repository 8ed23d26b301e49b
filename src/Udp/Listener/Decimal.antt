-- ===== src/Udp/Listener/Decimal.antt =====
-- Decimal texts of the numbers under 10 ^ 20, which hold every port and every time.
use usmp.Prelude.{
  ℕ, zero, suc, ◌+◌, ◌-◌, ◌*◌, ◌/◌, ◌%◌, ◌^◌, ◌<◌, ◌≡◌, ◌∙◌, refl, sym, ap, Bool, true, false, [],
  ◌∷◌, ◌++◌, Bytes, ltb, ◌==◌, ◌||◌, if◌then◌else◌, arith, Bool-cases, inl, inr,
}

-- The digits of `n` before those that are there, `fuel` of them at most.
unfoldable pub digits_before : ℕ → ℕ → Bytes → Bytes
digits_before zero n rest = rest
digits_before (suc fuel) n rest =
    let digits = digits_before fuel (n / 10) ((48 + n % 10) ∷ rest) in
    if ltb n 10 then (48 + n) ∷ rest else digits

-- `str(n)`.
unfoldable pub decimal : ℕ → Bytes
decimal n = digits_before 20 n []

-- The number that a text of digits goes on to.
read_from : ℕ → Bytes → ℕ
read_from n [] = n
read_from n (d ∷ ds) = read_from (n * 10 + (d - 48)) ds

read-digits_before :
    (fuel n : ℕ) (rest : Bytes)
    → n < 10 ^ fuel
    → read_from 0 (digits_before fuel n rest) ≡ read_from n rest
unfolding digits_before read_from
read-digits_before zero n rest h =
    let none_left : 0 ≡ n = omega arith in ap (λ k. read_from k rest) none_left
read-digits_before (suc fuel) n rest h = elim (Bool-cases (ltb n 10)) [
  | inl e ↦ let same : 0 + (48 + n - 48) ≡ n = omega arith in rw e (ap (λ k. read_from k rest) same)
  | inr e ↦
      let same : n / 10 * 10 + (48 + n % 10 - 48) ≡ n = omega arith in
      rw e (
        read-digits_before fuel (n / 10) ((48 + n % 10) ∷ rest) (omega arith)
        ∙ ap (λ k. read_from k rest) same)
]

-- Distinct numbers have distinct texts.
pub decimal-eq : (m n : ℕ) → m < 10 ^ 20 → n < 10 ^ 20 → decimal m ≡ decimal n → m ≡ n
unfolding decimal read_from
decimal-eq m n hm hn h =
    sym (read-digits_before 20 m [] hm) ∙ ap (read_from 0) h ∙ read-digits_before 20 n [] hn

-- `:` in a text.
abbrev pub has_colon : Bytes → Bool
has_colon [] = false
has_colon (x ∷ xs) = (x == 0x3a) || has_colon xs

digits-has_colon :
    (fuel n : ℕ) (rest : Bytes)
    → has_colon rest ≡ false
    → has_colon (digits_before fuel n rest) ≡ false
unfolding digits_before
digits-has_colon zero n rest h = h
digits-has_colon (suc fuel) n rest h =
    ground (arith, digits-has_colon fuel (n / 10) ((48 + n % 10) ∷ rest))

pub decimal-has_colon : (n : ℕ) → has_colon (decimal n) ≡ false
unfolding decimal
decimal-has_colon n = digits-has_colon 20 n [] refl

colon_inside : (xs ys : Bytes) → has_colon (xs ++ 0x3a ∷ ys) ≡ true
colon_inside [] ys = refl
colon_inside (x ∷ xs) ys = ground (arith, colon_inside xs ys)

-- A text is cut at its last `:` in one way only.
pub last_colon :
    (xs ys ds es : Bytes)
    → has_colon ds ≡ false
    → has_colon es ≡ false
    → xs ++ 0x3a ∷ ds ≡ ys ++ 0x3a ∷ es
    → (xs ≡ ys) × (ds ≡ es)
last_colon [] [] ds es hd he h = (refl, cc)
last_colon [] (y ∷ ys) ds es hd he h =
    let inside : ds ≡ ys ++ 0x3a ∷ es = cc in
    let bad : true ≡ false = sym (ap has_colon inside ∙ colon_inside ys es) ∙ hd in cc
last_colon (x ∷ xs) [] ds es hd he h =
    let inside : xs ++ 0x3a ∷ ds ≡ es = cc in
    let bad : true ≡ false = sym (colon_inside xs ds) ∙ ap has_colon inside ∙ he in cc
last_colon (x ∷ xs) (y ∷ ys) ds es hd he h =
    let (same, rest) = last_colon xs ys ds es hd he cc in let first : x ≡ y = cc in (cc, rest)
