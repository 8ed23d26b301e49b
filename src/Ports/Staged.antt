-- ===== src/Ports/Staged.antt =====
-- What `bundle_arduino` of scripts/bundle-ports.py leaves in the port: the core's files, patched.
use usmp.Prelude.{
  ◌≡◌, refl, ap, ◌∙◌, sym, Bool, true, false, none, some, List, [], ◌∷◌, ◌++◌, Bytes, bytes_eq,
  eq_of_bytes_eq, if◌then◌else◌, Bool-cases, Option-cases, inl, inr, arith,
}
use usmp.Prelude.Dict.{bytes_key, get, IsDict, put-IsDict, same_swap}
use usmp.Prelude.Texts.{codes}
use usmp.Ports.{
  src_dir, core_src, core_inc, usmp_api, usmp_header, is_among, write_all, files_in, suffix,
  source_copies, header_copies, staged_name, is_header, patch, stage_arduino,
}
use usmp.Ports.Copies.{
  read-write_all, source_copies-elsewhere, source_copies-none, header_copies-none,
  read-patch_staged, patched, path_eq-append,
}
use usmp.Ports.Paths.{
  FilePath, path_key, path_eq, eq_of_path_eq, Files, read, write, file_in, under, under-append,
  file_in-eq, read-write,
}

-- The last copy to a path is what it holds.
read-write_all_there :
    (p : FilePath) (text : Bytes) (copies fs : Files)
    → IsDict path_key copies
    → read p copies ≡ some text
    → read p (write_all copies fs) ≡ some text
unfolding write_all get
read-write_all_there p text [] fs v h = cc
read-write_all_there p text ((q, w) ∷ rest) fs v h = elim (Bool-cases (path_eq p q)) [
  | inl e ↦
      let same : p ≡ q = eq_of_path_eq p q e in
      let found : some w ≡ some text = rw e at h in
      read-write_all p rest (write q w fs) (rw same v.0) ∙ rw same (read-write q w fs) ∙ found
  | inr e ↦ read-write_all_there p text rest (write q w fs) v.1 (rw e at h)
]

away_eq :
    (dir : FilePath) (name : Bytes) (p : FilePath)
    → file_in dir p ≡ none
    → path_eq (dir ++ name ∷ []) p ≡ false
away_eq dir name p away = elim (Bool-cases (path_eq (dir ++ name ∷ []) p)) [
  | inl e ↦
      let there : file_in dir p ≡ some name =
        rw (← eq_of_path_eq (dir ++ name ∷ []) p e, under-append dir (name ∷ [])) refl in
      let both : none ≡ some name = sym away ∙ there in cc
  | inr e ↦ e
]

-- The files of a directory are those whose paths lie in it.
get-files_in :
    (dir : FilePath) (name : Bytes) (fs : Files)
    → get bytes_key name (files_in dir fs) ≡ read (dir ++ name ∷ []) fs
unfolding files_in get
get-files_in dir name [] = refl
get-files_in dir name ((p, text) ∷ rest) = elim (Option-cases (file_in dir p)) [
  | inl away ↦ rw away (rw (away_eq dir name p away) (get-files_in dir name rest))
  | inr (n, there) ↦ rw there (
      rw (file_in-eq dir p n there) (
        rw (path_eq-append dir name n)
          (ap (λ o. if bytes_eq name n then some text else o) (get-files_in dir name rest))))
]

files_in-IsDict :
    (dir : FilePath) (fs : Files) → IsDict path_key fs → IsDict bytes_key (files_in dir fs)
unfolding files_in
files_in-IsDict dir [] v = tt
files_in-IsDict dir ((p, text) ∷ rest) v = elim (Option-cases (file_in dir p)) [
  | inl away ↦ rw away (files_in-IsDict dir rest v.1)
  | inr (n, there) ↦
      rw there (
        get-files_in dir n rest ∙ rw (← file_in-eq dir p n there) v.0,
        files_in-IsDict dir rest v.1,
      )
]

-- The names that are copied, each to its place.
source_copies-IsDict :
    (files : List (Bytes × Bytes)) → IsDict bytes_key files → IsDict path_key (source_copies files)
unfolding source_copies
source_copies-IsDict [] v = tt
source_copies-IsDict ((name, text) ∷ rest) v =
    elim (Bool-cases (is_among (suffix name) (codes ".c" ∷ codes ".h" ∷ []))) [
      | inl e ↦ rw e (source_copies-none name rest v.0, source_copies-IsDict rest v.1)
      | inr e ↦ rw e (source_copies-IsDict rest v.1)
    ]

get-source_copies :
    (name : Bytes) (files : List (Bytes × Bytes))
    → is_among (suffix name) (codes ".c" ∷ codes ".h" ∷ []) ≡ true
    → read (src_dir ++ name ∷ []) (source_copies files) ≡ get bytes_key name files
unfolding source_copies get
get-source_copies name [] c = refl
get-source_copies name ((n, text) ∷ rest) c = elim (Bool-cases (bytes_eq name n)) [
  | inl e ↦
      let copied : is_among (suffix n) (codes ".c" ∷ codes ".h" ∷ []) ≡ true =
        rw (eq_of_bytes_eq name n e) at c in
      ground (arith, copied, e, path_eq-append src_dir name n)
  | inr e ↦ ground (arith, e, path_eq-append src_dir name n, get-source_copies name rest c)
]

eq_sym : (m n : Bytes) → bytes_eq m n ≡ false → bytes_eq n m ≡ false
eq_sym m n h = same_swap bytes_key m n h

-- Two headers other than `usmp_api.h` get different names.
staged_name-eq :
    (m n : Bytes)
    → bytes_eq m usmp_api ≡ false
    → bytes_eq n usmp_api ≡ false
    → bytes_eq (staged_name m) (staged_name n) ≡ bytes_eq m n
staged_name-eq m n hm hn = elim (Bool-cases (bytes_eq m usmp_header)) [
  | inl em ↦ elim (Bool-cases (bytes_eq n usmp_header)) [
    | inl en ↦ rw (em, en, eq_of_bytes_eq m usmp_header em, eq_of_bytes_eq n usmp_header en) refl
    | inr en ↦
        rw (em, en, eq_of_bytes_eq m usmp_header em)
          (eq_sym n usmp_api hn ∙ sym (eq_sym n usmp_header en))
  ]
  | inr em ↦ elim (Bool-cases (bytes_eq n usmp_header)) [
    | inl en ↦ rw (em, en, eq_of_bytes_eq n usmp_header en) (hm ∙ sym em)
    | inr en ↦ rw (em, en) refl
  ]
]

other_than_first :
    (name n : Bytes) (text : Bytes) (files : List (Bytes × Bytes))
    → get bytes_key name ((n, text) ∷ files) ≡ none
    → (bytes_eq n name ≡ false) × (get bytes_key name files ≡ none)
unfolding get
other_than_first name n text files h = elim (Bool-cases (bytes_eq name n)) [
  | inl e ↦ let both : some text ≡ none = rw e at h in cc
  | inr e ↦ (eq_sym name n e, rw e at h)
]

get-header_copies :
    (name : Bytes) (files : List (Bytes × Bytes))
    → is_header name ≡ true
    → bytes_eq name usmp_api ≡ false
    → get bytes_key usmp_api files ≡ none
    → read (src_dir ++ staged_name name ∷ []) (header_copies files) ≡ get bytes_key name files
unfolding header_copies get
get-header_copies name [] c own api = refl
get-header_copies name ((n, text) ∷ rest) c own api =
    let (other, later) = other_than_first usmp_api n text rest api in
    let same : path_eq (src_dir ++ staged_name name ∷ []) (src_dir ++ staged_name n ∷ [])
        ≡ bytes_eq name n =
      path_eq-append src_dir (staged_name name) (staged_name n) ∙ staged_name-eq name n own other in
    elim (Bool-cases (bytes_eq name n)) [
      | inl e ↦
          let copied : is_header n ≡ true = rw (eq_of_bytes_eq name n e) at c in
          rw copied (rw (same, e) refl)
      | inr e ↦
          let ih = get-header_copies name rest c own later in
          elim (Bool-cases (is_header n)) [
            | inl copied ↦ rw copied (rw (same, e) ih)
            | inr left ↦ rw (left, e) ih
          ]
    ]

header_copies-IsDict :
    (files : List (Bytes × Bytes))
    → IsDict bytes_key files
    → get bytes_key usmp_api files ≡ none
    → IsDict path_key (header_copies files)
unfolding header_copies
header_copies-IsDict [] v api = tt
header_copies-IsDict ((name, text) ∷ rest) v api =
    let (other, later) = other_than_first usmp_api name text rest api in
    elim (Bool-cases (is_header name)) [
      | inl e ↦
          rw e
            (get-header_copies name rest e other later ∙ v.0, header_copies-IsDict rest v.1 later)
      | inr e ↦ rw e (header_copies-IsDict rest v.1 later)
    ]

write_all-IsDict : (copies fs : Files) → IsDict path_key fs → IsDict path_key (write_all copies fs)
unfolding write_all
write_all-IsDict [] fs v = v
write_all-IsDict ((p, text) ∷ rest) fs v =
    write_all-IsDict rest (write p text fs) (put-IsDict path_key p text fs v)

-- `f.suffix in [".c", ".h", ".cpp"]`, by the name alone.
abbrev pub is_patched : Bytes → Bool
is_patched name = is_among (suffix name) (codes ".c" ∷ codes ".h" ∷ codes ".cpp" ∷ [])

is_patched_c :
    (name : Bytes)
    → is_among (suffix name) (codes ".c" ∷ codes ".h" ∷ []) ≡ true
    → is_patched name ≡ true
unfolding is_among
is_patched_c name h = ground (arith, h)

patched_name :
    (name text : Bytes)
    → is_patched name ≡ true
    → patched (src_dir ++ name ∷ []) (some text) ≡ some (patch text)
patched_name name text h = rw (under-append src_dir (name ∷ []), h) refl

module _ (fs : Files) (v : IsDict path_key fs)
    (no_api : read (core_inc ++ usmp_api ∷ []) fs ≡ none) where
  abbrev copied : Files
  copied = write_all (source_copies (files_in core_src fs)) fs

  headers_kept :
      (name : Bytes) → read (core_inc ++ name ∷ []) copied ≡ read (core_inc ++ name ∷ []) fs
  unfolding under
  headers_kept name =
      read-write_all (core_inc ++ name ∷ []) _ fs
        (source_copies-elsewhere (core_inc ++ name ∷ []) _ refl)

  get-header :
      (name : Bytes)
      → get bytes_key name (files_in core_inc copied) ≡ read (core_inc ++ name ∷ []) fs
  get-header name = get-files_in core_inc name copied ∙ headers_kept name

  staged_source :
      (name text : Bytes)
      → is_among (suffix name) (codes ".c" ∷ codes ".h" ∷ []) ≡ true
      → read (core_src ++ name ∷ []) fs ≡ some text
      → read (core_inc ++ name ∷ []) fs ≡ none
      → bytes_eq name usmp_api ≡ false
      → read (src_dir ++ name ∷ []) (stage_arduino fs) ≡ some (patch text)
  unfolding stage_arduino
  staged_source name text c there apart own =
      let first : read (src_dir ++ name ∷ []) copied ≡ some text =
        read-write_all_there (src_dir ++ name ∷ []) text _ fs
          (source_copies-IsDict _ (files_in-IsDict core_src fs v))
          (get-source_copies name _ c ∙ get-files_in core_src name fs ∙ there) in
      read-patch_staged (src_dir ++ name ∷ []) _
      ∙ ap (patched (src_dir ++ name ∷ [])) (
          read-write_all (src_dir ++ name ∷ []) _ copied
            (header_copies-none name _ (get-header name ∙ apart) own)
          ∙ first)
      ∙ patched_name name text (is_patched_c name c)

  staged_header :
      (name text : Bytes)
      → is_header name ≡ true
      → is_patched (staged_name name) ≡ true
      → read (core_inc ++ name ∷ []) fs ≡ some text
      → read (src_dir ++ staged_name name ∷ []) (stage_arduino fs) ≡ some (patch text)
  unfolding stage_arduino
  staged_header name text c c' there =
      let own : bytes_eq name usmp_api ≡ false = elim (Bool-cases (bytes_eq name usmp_api)) [
        | inl e ↦
            let both : none ≡ some text =
              sym no_api ∙ rw (eq_of_bytes_eq name usmp_api e) at there in
            cc
        | inr e ↦ e
      ] in
      read-patch_staged (src_dir ++ staged_name name ∷ []) _
      ∙ ap (patched (src_dir ++ staged_name name ∷ [])) (
          read-write_all_there (src_dir ++ staged_name name ∷ []) text _ copied
            (header_copies-IsDict _ (files_in-IsDict core_inc copied (write_all-IsDict _ fs v))
              (get-header usmp_api ∙ no_api))
            (get-header_copies name _ c own (get-header usmp_api ∙ no_api)
              ∙ get-header name
              ∙ there))
      ∙ patched_name (staged_name name) text c'

-- When the core has no header named `usmp_api.h`, staging puts any C or H file of core/src that no
-- header is named like, and any public header under its staged name, into the port's source
-- directory with its includes of `usmp.h` patched.
pub staged_core :
    (fs : Files) (name text header header_text : Bytes)
    → IsDict path_key fs
    → read (core_inc ++ usmp_api ∷ []) fs ≡ none
    → is_among (suffix name) (codes ".c" ∷ codes ".h" ∷ []) ≡ true
    → read (core_src ++ name ∷ []) fs ≡ some text
    → read (core_inc ++ name ∷ []) fs ≡ none
    → bytes_eq name usmp_api ≡ false
    → is_header header ≡ true
    → is_patched (staged_name header) ≡ true
    → read (core_inc ++ header ∷ []) fs ≡ some header_text
    → (read (src_dir ++ name ∷ []) (stage_arduino fs) ≡ some (patch text))
      × (read (src_dir ++ staged_name header ∷ []) (stage_arduino fs) ≡ some (patch header_text))
staged_core fs name text header header_text v no_api c there apart own c_h patched_h there_h = (
  staged_source fs v no_api name text c there apart own,
  staged_header fs v no_api header header_text c_h patched_h there_h,
)
