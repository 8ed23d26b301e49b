-- ===== src/Prelude/Dict.antt =====
-- Python dictionaries as association lists in the order of insertion, over any type of keys.
pub mod Keys
use Prim.Native.Nat.{ℕ, zero, suc, ◌+◌, ◌≤◌, ◌<◌}
use mathlib.Core.Path.{◌≡◌, refl, sym, ap, ◌∙◌}
use mathlib.Core.Bool.{Bool, true, false}
use mathlib.Core.Option.{Option, none, some}
use mathlib.Core.Logic.{inl, inr}
use mathlib.Core.List.{List, [], ◌∷◌}
use native.Mathlib.Omega.{arith}
use usmp.Prelude.Tests.{if◌then◌else◌, Bool-cases}
use usmp.Prelude.Lists.{length, Bytes, bytes_eq, bytes_eq_refl, eq_of_bytes_eq}

-- `==` on keys.
pub record Key (K : Type 0) : Type 0 where
  pub same : K → K → Bool
  pub same_refl : (k : K) → same k k ≡ true
  pub eq_of_same : (j k : K) → same j k ≡ true → j ≡ k

abbrev pub bytes_key : Key Bytes
bytes_key = record { same = bytes_eq; same_refl = bytes_eq_refl; eq_of_same = eq_of_bytes_eq }

abbrev pub is_present {ℓ} : {V : Type ℓ} → Option V → Bool
is_present none = false
is_present (some v) = true

pub same_swap : {K : Type 0} (E : Key K) (j k : K) → E.same j k ≡ false → E.same k j ≡ false
same_swap E j k h = elim (Bool-cases (E.same k j)) [
  | inl e ↦ let both : E.same j k ≡ true = rw (E.eq_of_same k j e) (E.same_refl j) in cc
  | inr e ↦ e
]

module _ {K V : Type 0} (E : Key K) where
  -- `d.get(key)`.
  unfoldable pub get : K → List (K × V) → Option V
  get key [] = none
  get key ((k, v) ∷ rest) = let found = get key rest in if E.same key k then some v else found

  -- `d[key] = v`, which leaves a key in its place.
  unfoldable pub put : K → V → List (K × V) → List (K × V)
  put key v [] = (key, v) ∷ []
  put key v ((k, w) ∷ rest) =
      let placed = put key v rest in if E.same key k then (k, v) ∷ rest else (k, w) ∷ placed

  -- `d.pop(key, None)`.
  unfoldable pub delete : K → List (K × V) → List (K × V)
  delete key [] = []
  delete key ((k, v) ∷ rest) =
      let deleted = delete key rest in if E.same key k then rest else (k, v) ∷ deleted

  abbrev pub is_in : K → List (K × V) → Bool
  is_in key d = is_present (get key d)

  -- No key twice.
  abbrev pub IsDict : List (K × V) → Type 0
  IsDict [] = Unit
  IsDict ((k, v) ∷ rest) = (get k rest ≡ none) × IsDict rest

  pub get-put : (key : K) (v : V) (d : List (K × V)) → get key (put key v d) ≡ some v
  unfolding get put
  get-put key v [] = rw (E.same_refl key) refl
  get-put key v ((k, w) ∷ rest) = ground (arith, get-put key v rest)

  pub get-put_ne :
      (j key : K) (v : V) (d : List (K × V)) → E.same j key ≡ false → get j (put key v d) ≡ get j d
  unfolding get put
  get-put_ne j key v [] h = rw h refl
  get-put_ne j key v ((k, w) ∷ rest) h = elim (Bool-cases (E.same key k)) [
    | inl e ↦
        let differs : E.same j k ≡ false = rw (← E.eq_of_same key k e) h in rw (e, differs) refl
    | inr e ↦ rw (e, get-put_ne j key v rest h) refl
  ]

  pub get-delete_ne :
      (j key : K) (d : List (K × V)) → E.same j key ≡ false → get j (delete key d) ≡ get j d
  unfolding get delete
  get-delete_ne j key [] h = refl
  get-delete_ne j key ((k, w) ∷ rest) h = elim (Bool-cases (E.same key k)) [
    | inl e ↦
        let differs : E.same j k ≡ false = rw (← E.eq_of_same key k e) h in rw (e, differs) refl
    | inr e ↦ rw (e, get-delete_ne j key rest h) refl
  ]

  pub get-delete : (key : K) (d : List (K × V)) → IsDict d → get key (delete key d) ≡ none
  unfolding get delete
  get-delete key [] v = refl
  get-delete key ((k, w) ∷ rest) v = elim (Bool-cases (E.same key k)) [
    | inl e ↦ rw e (rw (E.eq_of_same key k e) v.0)
    | inr e ↦ ground (arith, e, get-delete key rest)
  ]

  pub length-put_old :
      (key : K) (v : V) (d : List (K × V)) → is_in key d ≡ true → length (put key v d) ≡ length d
  unfolding get put
  length-put_old key v [] h = cc
  length-put_old key v ((k, w) ∷ rest) h = ground (arith, length-put_old key v rest)

  pub length-put : (key : K) (v : V) (d : List (K × V)) → length (put key v d) ≤ length d + 1
  unfolding put
  length-put key v [] = omega arith
  length-put key v ((k, w) ∷ rest) = ground (arith, length-put key v rest)

  pub length-delete_old :
      (key : K) (d : List (K × V)) → is_in key d ≡ true → length (delete key d) + 1 ≡ length d
  unfolding get delete
  length-delete_old key [] h = cc
  length-delete_old key ((k, w) ∷ rest) h = ground (arith, length-delete_old key rest)

  pub length-delete : (key : K) (d : List (K × V)) → length (delete key d) ≤ length d
  unfolding delete
  length-delete key [] = omega arith
  length-delete key ((k, w) ∷ rest) = ground (arith, length-delete key rest)

  pub delete-IsDict : (key : K) (d : List (K × V)) → IsDict d → IsDict (delete key d)
  unfolding delete
  delete-IsDict key [] v = tt
  delete-IsDict key ((k, w) ∷ rest) v = elim (Bool-cases (E.same key k)) [
    | inl e ↦ rw e v.1
    | inr e ↦
        rw e (get-delete_ne k key rest (same_swap E key k e) ∙ v.0, delete-IsDict key rest v.1)
  ]

  pub put-IsDict : (key : K) (x : V) (d : List (K × V)) → IsDict d → IsDict (put key x d)
  unfolding put get
  put-IsDict key x [] v = (refl, tt)
  put-IsDict key x ((k, w) ∷ rest) v = elim (Bool-cases (E.same key k)) [
    | inl e ↦ rw e v
    | inr e ↦ rw e (get-put_ne k key x rest (same_swap E key k e) ∙ v.0, put-IsDict key x rest v.1)
  ]
