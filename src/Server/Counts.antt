-- ===== src/Server/Counts.antt =====
-- The connection counts against the list of the connections that are open.
use usmp.Prelude.{
  ℕ, ◌+◌, ◌-◌, ◌<◌, ◌≡◌, refl, ap, true, false, List, [], ◌∷◌, ◌++◌, Bytes, bytes_eq, length,
  length-append, leb, if◌then◌else◌, le_of_leb, arith, Bool-cases, inl, inr,
}
use usmp.Prelude.Dict.{
  bytes_key, is_in, get, put, delete, IsDict, get-put, get-put_ne, get-delete, get-delete_ne,
  put-IsDict, delete-IsDict,
}
use usmp.Server.{Counts, value_of, total, release}

abbrev pub occurs : Bytes → List Bytes → ℕ
occurs ip [] = 0
occurs ip (x ∷ xs) = (if bytes_eq ip x then 1 else 0) + occurs ip xs

abbrev ArePositive : Counts → Type 0
ArePositive [] = Unit
ArePositive ((ip, n) ∷ rest) = (0 < n) × ArePositive rest

-- The counts stand for a list of open connections.
pub record Counted (counts : Counts) (open_ips : List Bytes) : Type 0 where
  pub dict : IsDict bytes_key counts
  pub exact : (ip : Bytes) → value_of ip counts ≡ occurs ip open_ips
  pub positive : ArePositive counts
  pub sum : total counts ≡ length open_ips

total-put :
    (ip : Bytes) (n : ℕ) (counts : Counts)
    → total (put bytes_key ip n counts) + value_of ip counts ≡ total counts + n
unfolding get put
total-put ip n [] = omega arith
total-put ip n ((k, m) ∷ rest) = ground (arith, total-put ip n rest)

total-delete :
    (ip : Bytes) (counts : Counts)
    → total (delete bytes_key ip counts) + value_of ip counts ≡ total counts
unfolding get delete
total-delete ip [] = omega arith
total-delete ip ((k, m) ∷ rest) = ground (arith, total-delete ip rest)

put-ArePositive :
    (ip : Bytes) (n : ℕ) (counts : Counts)
    → 0 < n
    → ArePositive counts
    → ArePositive (put bytes_key ip n counts)
unfolding put
put-ArePositive ip n [] h v = (h, tt)
put-ArePositive ip n ((k, m) ∷ rest) h v = ground (arith, put-ArePositive ip n rest)

delete-put-ArePositive :
    (ip : Bytes) (n : ℕ) (counts : Counts)
    → ArePositive counts
    → ArePositive (delete bytes_key ip (put bytes_key ip n counts))
unfolding put delete
delete-put-ArePositive ip n [] v = rw (bytes_key.same_refl ip) tt
delete-put-ArePositive ip n ((k, m) ∷ rest) v = ground (arith, delete-put-ArePositive ip n rest)

value-put :
    (j ip : Bytes) (n : ℕ) (counts : Counts)
    → value_of j (put bytes_key ip n counts) ≡ (if bytes_eq j ip then n else value_of j counts)
value-put j ip n counts = elim (Bool-cases (bytes_eq j ip)) [
  | inl e ↦ rw (e, bytes_key.eq_of_same j ip e, get-put bytes_key ip n counts) refl
  | inr e ↦ rw (e, get-put_ne bytes_key j ip n counts e) refl
]

value-delete :
    (j ip : Bytes) (counts : Counts)
    → IsDict bytes_key counts
    → value_of j (delete bytes_key ip counts) ≡ (if bytes_eq j ip then 0 else value_of j counts)
value-delete j ip counts v = elim (Bool-cases (bytes_eq j ip)) [
  | inl e ↦ rw (e, bytes_key.eq_of_same j ip e, get-delete bytes_key ip counts v) refl
  | inr e ↦ rw (e, get-delete_ne bytes_key j ip counts e) refl
]

pub occurs-append :
    (ip : Bytes) (xs ys : List Bytes) → occurs ip (xs ++ ys) ≡ occurs ip xs + occurs ip ys
occurs-append ip [] ys = omega arith
occurs-append ip (x ∷ xs) ys = omega (arith, occurs-append ip xs ys)

pub occurs-cons_same : (ip : Bytes) (xs : List Bytes) → occurs ip (ip ∷ xs) ≡ 1 + occurs ip xs
occurs-cons_same ip xs = rw (bytes_key.same_refl ip) refl

pub occurs-cons_other :
    (j ip : Bytes) (xs : List Bytes) → bytes_eq j ip ≡ false → occurs j (ip ∷ xs) ≡ occurs j xs
occurs-cons_other j ip xs h = rw h (omega arith)

pub empty-Counted : Counted [] []
unfolding get
empty-Counted = record { dict = tt; exact = λ ip. refl; positive = tt; sum = refl }

-- A connection more.
pub put-Counted :
    (counts : Counts) (open_ips : List Bytes) (ip : Bytes)
    → Counted counts open_ips
    → Counted (put bytes_key ip (value_of ip counts + 1) counts) (ip ∷ open_ips)
put-Counted counts open_ips ip v = record {
  dict = put-IsDict bytes_key ip (value_of ip counts + 1) counts v.dict;
  exact = λ j. put_exact j;
  positive = put-ArePositive ip (value_of ip counts + 1) counts (omega arith) v.positive;
  sum = omega (arith, total-put ip (value_of ip counts + 1) counts, v.sum);
}
  where
    put_exact :
        (j : Bytes)
        → value_of j (put bytes_key ip (value_of ip counts + 1) counts) ≡ occurs j (ip ∷ open_ips)
    put_exact j = elim (Bool-cases (bytes_eq j ip)) [
      | inl e ↦
          rw (value-put j ip (value_of ip counts + 1) counts, e)
            (omega (arith, ap (λ k. value_of k counts) (bytes_key.eq_of_same j ip e), v.exact j))
      | inr e ↦ rw (value-put j ip (value_of ip counts + 1) counts, e) (omega (arith, v.exact j))
    ]

is_in_value :
    (ip : Bytes) (counts : Counts) → 0 < value_of ip counts → is_in bytes_key ip counts ≡ true
is_in_value ip counts h = ground arith

module _ (counts : Counts) (ip : Bytes) (before after : List Bytes)
    (v : Counted counts (before ++ ip ∷ after)) where
  left : List Bytes
  left = before ++ after

  abbrev lowered : Counts
  lowered = put bytes_key ip (value_of ip counts - 1) counts

  value_now : value_of ip counts ≡ occurs ip before + 1 + occurs ip after
  value_now =
      omega (arith, v.exact ip, occurs-append ip before (ip ∷ after), occurs-cons_same ip after)

  occurs_left :
      (j : Bytes)
      → occurs j (before ++ after)
        ≡ (if bytes_eq j ip then value_of ip counts - 1 else value_of j counts)
  occurs_left j = elim (Bool-cases (bytes_eq j ip)) [
    | inl e ↦
        rw (e, bytes_key.eq_of_same j ip e)
          (omega (arith, value_now, occurs-append ip before after))
    | inr e ↦ rw e (
        omega (
          arith,
          v.exact j,
          occurs-append j before (ip ∷ after),
          occurs-append j before after,
          occurs-cons_other j ip after e,
        ))
  ]

  sizes : length (before ++ ip ∷ after) ≡ length (before ++ after) + 1
  sizes = omega (arith, length-append {0} before (ip ∷ after), length-append {0} before after)

  -- A connection less.
  pub release-Counted : Counted (release ip counts) (before ++ after)
  unfolding release
  release-Counted =
      let held : is_in bytes_key ip counts ≡ true =
        is_in_value ip counts (omega (arith, value_now)) in
      elim (Bool-cases (leb (value_of ip counts - 1) 0)) [
        | inl last ↦
            rw (held, last)
              (record {
                dict =
                    delete-IsDict bytes_key ip lowered
                      (put-IsDict bytes_key ip (value_of ip counts - 1) counts v.dict);
                exact = λ j.
                    rw
                      (
                        value-delete j ip lowered
                            (put-IsDict bytes_key ip (value_of ip counts - 1) counts v.dict),
                        value-put j ip (value_of ip counts - 1) counts,
                        occurs_left j,
                      )
                      (ground (arith, last));
                positive = delete-put-ArePositive ip (value_of ip counts - 1) counts v.positive;
                sum = omega (
                  arith,
                  total-put ip (value_of ip counts - 1) counts,
                  total-delete ip lowered,
                  value-put ip ip (value_of ip counts - 1) counts,
                  ap (λ b. if b then value_of ip counts - 1 else value_of ip counts)
                      (bytes_key.same_refl ip),
                  le_of_leb (value_of ip counts - 1) 0 last,
                  v.sum,
                  sizes,
                  value_now,
                );
              })
        | inr more ↦
            rw (held, more)
              (record {
                dict = put-IsDict bytes_key ip (value_of ip counts - 1) counts v.dict;
                exact =
                    λ j. rw (value-put j ip (value_of ip counts - 1) counts, occurs_left j) refl;
                positive =
                    put-ArePositive ip (value_of ip counts - 1) counts (ground (arith, more))
                      v.positive;
                sum =
                    omega (
                      arith,
                      total-put ip (value_of ip counts - 1) counts,
                      v.sum,
                      sizes,
                      value_now,
                    );
              })
      ]

-- Without connections the counts are empty.
pub Counted-empty : (counts : Counts) → Counted counts [] → counts ≡ []
Counted-empty [] v = refl
Counted-empty ((ip, n) ∷ rest) v = absurd (omega (arith, v.sum, v.positive.0))
