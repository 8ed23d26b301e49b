-- ===== src/Ports/Paths.antt =====
-- Paths below the root of the repository, and its files by path; a directory is there if a file is
-- below it.
use usmp.Prelude.{
  ◌≡◌, refl, Bool, true, false, ◌&&◌, ◌||◌, Option, none, some, List, [], ◌∷◌, ◌++◌, Bytes,
  bytes_eq, bytes_eq_refl, eq_of_bytes_eq, if◌then◌else◌, Bool-cases, inl, inr, arith,
}
use usmp.Prelude.Dict.{Key, is_present, get, put, get-put, get-put_ne}

abbrev pub FilePath : Type 0
FilePath = List Bytes

unfoldable pub path_eq : FilePath → FilePath → Bool
path_eq [] [] = true
path_eq (a ∷ p) (b ∷ q) = bytes_eq a b && path_eq p q
path_eq p q = false

pub path_eq_refl : (p : FilePath) → path_eq p p ≡ true
unfolding path_eq
path_eq_refl [] = refl
path_eq_refl (a ∷ p) = rw (bytes_eq_refl a, path_eq_refl p) refl

both_true : (a b : Bool) → (a && b) ≡ true → (a ≡ true) × (b ≡ true)
both_true true true h = (refl, refl)
both_true true false h = cc
both_true false b h = cc

pub eq_of_path_eq : (p q : FilePath) → path_eq p q ≡ true → p ≡ q
unfolding path_eq
eq_of_path_eq [] [] h = refl
eq_of_path_eq [] (b ∷ q) h = cc
eq_of_path_eq (a ∷ p) [] h = cc
eq_of_path_eq (a ∷ p) (b ∷ q) h =
    let (first, rest) = both_true (bytes_eq a b) (path_eq p q) h in
    cc (eq_of_bytes_eq a b first, eq_of_path_eq p q rest)

abbrev pub path_key : Key FilePath
path_key = record { same = path_eq; same_refl = path_eq_refl; eq_of_same = eq_of_path_eq }

-- The files of the repository with their contents.
abbrev pub Files : Type 0
Files = List (FilePath × Bytes)

abbrev pub read : FilePath → Files → Option Bytes
read = get path_key

abbrev pub write : FilePath → Bytes → Files → Files
write = put path_key

-- The path below a directory.
unfoldable pub under : FilePath → FilePath → Option FilePath
under [] p = some p
under (d ∷ dir) [] = none
under (d ∷ dir) (n ∷ p) = if bytes_eq d n then under dir p else none

abbrev pub only_name : Option FilePath → Option Bytes
only_name (some (name ∷ [])) = some name
only_name _ = none

-- The name of a file that lies in the directory itself.
abbrev pub file_in : FilePath → FilePath → Option Bytes
file_in dir p = only_name (under dir p)

pub under-append : (dir rest : FilePath) → under dir (dir ++ rest) ≡ some rest
unfolding under
under-append [] rest = refl
under-append (d ∷ dir) rest = rw (bytes_eq_refl d) (under-append dir rest)

pub under-eq : (dir p rest : FilePath) → under dir p ≡ some rest → p ≡ dir ++ rest
unfolding under
under-eq [] p rest h = cc
under-eq (d ∷ dir) [] rest h = cc
under-eq (d ∷ dir) (n ∷ p) rest h = elim (Bool-cases (bytes_eq d n)) [
  | inl e ↦ cc (eq_of_bytes_eq d n e, under-eq dir p rest (rw e at h))
  | inr e ↦ let none_there : none ≡ some rest = rw e at h in cc
]

only_name-eq : (o : Option FilePath) (name : Bytes) → only_name o ≡ some name → o ≡ some (name ∷ [])
only_name-eq (some (n ∷ [])) name h = cc
only_name-eq (some []) name h = cc
only_name-eq (some (n ∷ m ∷ r)) name h = cc
only_name-eq none name h = cc

pub file_in-eq :
    (dir p : FilePath) (name : Bytes) → file_in dir p ≡ some name → p ≡ dir ++ name ∷ []
file_in-eq dir p name h = under-eq dir p (name ∷ []) (only_name-eq (under dir p) name h)

-- A directory exists.
unfoldable pub exists : FilePath → Files → Bool
exists dir [] = false
exists dir ((p, text) ∷ rest) = is_present (under dir p) || exists dir rest

-- `rmtree` and the like: every file whose path passes the test goes.
unfoldable pub remove_if : (FilePath → Bool) → Files → Files
remove_if test [] = []
remove_if test ((p, text) ∷ rest) =
    let kept = remove_if test rest in if test p then kept else (p, text) ∷ kept

pub read-remove_if :
    (test : FilePath → Bool) (p : FilePath) (fs : Files)
    → read p (remove_if test fs) ≡ (if test p then none else read p fs)
unfolding remove_if get
read-remove_if test p [] = ground arith
read-remove_if test p ((q, text) ∷ rest) = elim (Bool-cases (path_eq p q)) [
  | inl e ↦
      let same : p ≡ q = eq_of_path_eq p q e in
      rw (← same) (rw (path_eq_refl p) (ground (arith, read-remove_if test p rest)))
  | inr e ↦ rw e (ground (arith, e, read-remove_if test p rest))
]

-- A path other than the one written.
pub read-write_ne :
    (p q : FilePath) (text : Bytes) (fs : Files)
    → path_eq p q ≡ false
    → read p (write q text fs) ≡ read p fs
read-write_ne p q text fs h = get-put_ne path_key p q text fs h

pub read-write : (p : FilePath) (text : Bytes) (fs : Files) → read p (write p text fs) ≡ some text
read-write p text fs = get-put path_key p text fs

-- A directory with a file in it exists.
pub exists-read :
    (dir p : FilePath) (text : Bytes) (fs : Files)
    → is_present (under dir p) ≡ true
    → read p fs ≡ some text
    → exists dir fs ≡ true
unfolding exists get
exists-read dir p text [] there h = cc
exists-read dir p text ((q, w) ∷ rest) there h = elim (Bool-cases (path_eq p q)) [
  | inl e ↦
      let inside : is_present (under dir q) ≡ true = rw (eq_of_path_eq p q e) at there in
      rw inside refl
  | inr e ↦ ground (arith, exists-read dir p text rest there (rw e at h))
]
