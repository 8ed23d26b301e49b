-- ===== src/Prelude/Dict/Keys.antt =====
-- Dictionaries whose keys are keys of another one.
use mathlib.Core.Path.{◌≡◌, refl}
use mathlib.Core.Bool.{true}
use mathlib.Core.List.{List, [], ◌∷◌}
use native.Mathlib.Omega.{arith}
use usmp.Prelude.Dict.{Key, is_in, get}

module _ {K V : Type 0} (E : Key K) where
  -- Every key of the one is a key of the other.
  abbrev pub AreIn : List (K × V) → List (K × V) → Type 0
  AreIn [] table = Unit
  AreIn ((k, v) ∷ rest) table = (is_in E k table ≡ true) × AreIn rest table

  is_in-cons :
      (key k : K) (v : V) (table : List (K × V))
      → is_in E key table ≡ true
      → is_in E key ((k, v) ∷ table) ≡ true
  unfolding get
  is_in-cons key k v table h = ground arith

  pub AreIn-cons :
      (rest : List (K × V)) (k : K) (v : V) (table : List (K × V))
      → AreIn rest table
      → AreIn rest ((k, v) ∷ table)
  AreIn-cons [] k v table h = tt
  AreIn-cons ((l, w) ∷ rest) k v table h =
      (is_in-cons l k v table h.0, AreIn-cons rest k v table h.1)

  pub is_in_head : (k : K) (v : V) (table : List (K × V)) → is_in E k ((k, v) ∷ table) ≡ true
  unfolding get
  is_in_head k v table = rw (E.same_refl k) refl

  pub AreIn-refl : (table : List (K × V)) → AreIn table table
  AreIn-refl [] = tt
  AreIn-refl ((k, v) ∷ rest) = (is_in_head k v rest, AreIn-cons rest k v rest (AreIn-refl rest))
