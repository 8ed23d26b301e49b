-- ===== src/Ports/Copies.antt =====
-- What the copies of scripts/bundle-ports.py change, and what they leave.
use usmp.Prelude.{
  ◌≡◌, refl, ap, ◌∙◌, sym, true, false, Option, none, some, List, [], ◌∷◌, ◌++◌, Bytes, bytes_eq,
  bytes_eq_refl, if◌then◌else◌, Bool-cases, Option-cases, inl, inr, arith,
}
use usmp.Prelude.Dict.{bytes_key, get, is_present}
use usmp.Ports.{
  src_dir, usmp_api, write_all, files_in, source_copies, header_copies, staged_name, has_include,
  patch, patch_staged, is_staged,
}
use usmp.Ports.Paths.{
  FilePath, path_eq, eq_of_path_eq, Files, read, write, file_in, under-append, file_in-eq,
  read-write, read-write_ne,
}

pub read-write_all :
    (p : FilePath) (copies fs : Files)
    → read p copies ≡ none
    → read p (write_all copies fs) ≡ read p fs
unfolding write_all get
read-write_all p [] fs h = refl
read-write_all p ((q, text) ∷ rest) fs h = elim (Bool-cases (path_eq p q)) [
  | inl e ↦ let both : some text ≡ none = rw e at h in cc
  | inr e ↦ read-write_all p rest (write q text fs) (rw e at h) ∙ read-write_ne p q text fs e
]

present-write :
    (p q : FilePath) (text : Bytes) (fs : Files)
    → is_present (read p fs) ≡ true
    → is_present (read p (write q text fs)) ≡ true
present-write p q text fs h = elim (Bool-cases (path_eq p q)) [
  | inl e ↦ rw (eq_of_path_eq p q e) (ap is_present (read-write q text fs))
  | inr e ↦ ap is_present (read-write_ne p q text fs e) ∙ h
]

-- No copy removes a file.
pub present-write_all :
    (p : FilePath) (copies fs : Files)
    → is_present (read p fs) ≡ true
    → is_present (read p (write_all copies fs)) ≡ true
unfolding write_all
present-write_all p [] fs h = h
present-write_all p ((q, text) ∷ rest) fs h =
    present-write_all p rest (write q text fs) (present-write p q text fs h)

-- A path that is not that of a file of the directory.
other_path :
    (dir p : FilePath) (name : Bytes) → file_in dir p ≡ none → path_eq p (dir ++ name ∷ []) ≡ false
other_path dir p name h = elim (Bool-cases (path_eq p (dir ++ name ∷ []))) [
  | inl e ↦
      let there : file_in dir p ≡ some name =
        rw (eq_of_path_eq p (dir ++ name ∷ []) e, under-append dir (name ∷ [])) refl in
      let both : none ≡ some name = sym h ∙ there in cc
  | inr e ↦ e
]

pub source_copies-elsewhere :
    (p : FilePath) (files : List (Bytes × Bytes))
    → file_in src_dir p ≡ none
    → read p (source_copies files) ≡ none
unfolding source_copies get
source_copies-elsewhere p [] h = refl
source_copies-elsewhere p ((name, text) ∷ rest) h =
    ground (arith, source_copies-elsewhere p rest h, other_path src_dir p name h)

pub header_copies-elsewhere :
    (p : FilePath) (files : List (Bytes × Bytes))
    → file_in src_dir p ≡ none
    → read p (header_copies files) ≡ none
unfolding header_copies get
header_copies-elsewhere p [] h = refl
header_copies-elsewhere p ((name, text) ∷ rest) h =
    ground (arith, header_copies-elsewhere p rest h, other_path src_dir p (staged_name name) h)

pub path_eq-append :
    (dir : FilePath) (m n : Bytes) → path_eq (dir ++ m ∷ []) (dir ++ n ∷ []) ≡ bytes_eq m n
unfolding path_eq
path_eq-append [] m n = ground arith
path_eq-append (d ∷ dir) m n = rw (bytes_eq_refl d, path_eq-append dir m n) refl

-- A name that no file of the directory has.
pub files_in-none :
    (dir : FilePath) (name : Bytes) (fs : Files)
    → read (dir ++ name ∷ []) fs ≡ none
    → get bytes_key name (files_in dir fs) ≡ none
unfolding files_in get
files_in-none dir name [] h = refl
files_in-none dir name ((p, text) ∷ rest) h = elim (Bool-cases (path_eq (dir ++ name ∷ []) p)) [
  | inl e ↦ let both : some text ≡ none = rw e at h in cc
  | inr e ↦ elim (Option-cases (file_in dir p)) [
    | inl away ↦ rw away (files_in-none dir name rest (rw e at h))
    | inr (n, there) ↦
        let differs : bytes_eq name n ≡ false =
          sym (path_eq-append dir name n) ∙ rw (file_in-eq dir p n there) at e in
        rw there (rw differs (files_in-none dir name rest (rw e at h)))
  ]
]

pub source_copies-none :
    (name : Bytes) (files : List (Bytes × Bytes))
    → get bytes_key name files ≡ none
    → read (src_dir ++ name ∷ []) (source_copies files) ≡ none
unfolding source_copies get
source_copies-none name [] h = refl
source_copies-none name ((n, text) ∷ rest) h =
    ground (arith, source_copies-none name rest, path_eq-append src_dir name n)

pub header_copies-none :
    (name : Bytes) (files : List (Bytes × Bytes))
    → get bytes_key name files ≡ none
    → bytes_eq name usmp_api ≡ false
    → read (src_dir ++ name ∷ []) (header_copies files) ≡ none
unfolding header_copies get
header_copies-none name [] h own = refl
header_copies-none name ((n, text) ∷ rest) h own = ground (
  arith,
  header_copies-none name rest,
  path_eq-append src_dir name n,
  path_eq-append src_dir name usmp_api,
)

-- The text of a file after patching.
abbrev pub patched : FilePath → Option Bytes → Option Bytes
patched p none = none
patched p (some text) = some (if is_staged (file_in src_dir p) then patch text else text)

pub read-patch_staged :
    (p : FilePath) (fs : Files) → read p (patch_staged fs) ≡ patched p (read p fs)
unfolding patch_staged get
read-patch_staged p [] = refl
read-patch_staged p ((q, text) ∷ rest) = elim (Bool-cases (path_eq p q)) [
  | inl e ↦ rw e (rw (eq_of_path_eq p q e) refl)
  | inr e ↦ rw e (read-patch_staged p rest)
]

pub patched_elsewhere :
    (p : FilePath) (o : Option Bytes) → file_in src_dir p ≡ none → patched p o ≡ o
patched_elsewhere p none h = refl
patched_elsewhere p (some text) h = rw h refl

pub patched_plain :
    (p : FilePath) (o : Option Bytes)
    → ((text : Bytes) → o ≡ some text → has_include text ≡ false)
    → patched p o ≡ o
unfolding patch
patched_plain p none h = refl
patched_plain p (some text) h = rw (h text refl) (ground arith)
