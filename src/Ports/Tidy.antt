-- ===== src/Ports/Tidy.antt =====
-- Cleaning the ports of a repository that was tidy before.
use usmp.Prelude.{
  ◌≡◌, refl, ap, ◌∙◌, sym, Bool, true, false, not, none, some, [], ◌∷◌, ◌++◌, Bytes, bytes_eq,
  if◌then◌else◌, Bool-cases, Option-cases, inl, inr,
}
use usmp.Ports.{
  src_dir, core_dest, esp32_license, license_file, core_src, core_inc, usmp_api, arduino_shim,
  native_files, is_among, write_all, files_in, source_copies, header_copies, stage_arduino,
  has_include,
}
use usmp.Ports.Commands.{is_under, rmtree, is_stray, clean_arduino}
use usmp.Ports.Copies.{
  read-write_all, source_copies-elsewhere, header_copies-elsewhere, files_in-none,
  source_copies-none, header_copies-none, read-patch_staged, patched_elsewhere, patched_plain,
  patched, path_eq-append,
}
use usmp.Ports.Paths.{
  FilePath, path_eq, eq_of_path_eq, Files, read, under, file_in, exists, under-eq, file_in-eq,
  read-remove_if, read-write, read-write_ne,
}

-- The ports as the repository has them: the shim in place, nothing bundled, no file of the port that
-- the core has too or that includes the core's header by its name, and the same licence.
pub record IsTidy (fs : Files) : Type 0 where
  pub shim : read (src_dir ++ usmp_api ∷ []) fs ≡ some arduino_shim
  pub strays :
      (name : Bytes) → is_among name native_files ≡ false → read (src_dir ++ name ∷ []) fs ≡ none
  pub apart :
      (name : Bytes)
      → is_among name native_files ≡ true
      → bytes_eq name usmp_api ≡ false
      → (read (core_src ++ name ∷ []) fs ≡ none) × (read (core_inc ++ name ∷ []) fs ≡ none)
  pub plain :
      (name text : Bytes)
      → is_among name native_files ≡ true
      → read (src_dir ++ name ∷ []) fs ≡ some text
      → has_include text ≡ false
  pub unbundled : (below : FilePath) → read (core_dest ++ below) fs ≡ none
  pub license :
      (text : Bytes) → read license_file fs ≡ some text → read esp32_license fs ≡ some text
  pub sources : (exists core_src fs ≡ true) × (exists core_inc fs ≡ true)

-- Staging leaves every path that is not in the port's source directory.
pub stage-elsewhere :
    (p : FilePath) (fs : Files) → file_in src_dir p ≡ none → read p (stage_arduino fs) ≡ read p fs
unfolding stage_arduino
stage-elsewhere p fs h =
    read-patch_staged p _
    ∙ patched_elsewhere p _ h
    ∙ read-write_all p _ _ (header_copies-elsewhere p _ h)
    ∙ read-write_all p _ fs (source_copies-elsewhere p _ h)

-- Staging leaves the port's own files but the shim.
pub stage-native :
    (name : Bytes) (fs : Files)
    → IsTidy fs
    → is_among name native_files ≡ true
    → bytes_eq name usmp_api ≡ false
    → read (src_dir ++ name ∷ []) (stage_arduino fs) ≡ read (src_dir ++ name ∷ []) fs
unfolding stage_arduino under
stage-native name fs v native own =
    let (no_source, no_header) = v.apart name native own in
    let copied : Files = write_all (source_copies (files_in core_src fs)) fs in
    let first : read (src_dir ++ name ∷ []) copied ≡ read (src_dir ++ name ∷ []) fs =
      read-write_all (src_dir ++ name ∷ []) _ fs
        (source_copies-none name _ (files_in-none core_src name fs no_source)) in
    let header : read (core_inc ++ name ∷ []) copied ≡ none =
      read-write_all (core_inc ++ name ∷ []) _ fs
        (source_copies-elsewhere (core_inc ++ name ∷ []) _ refl)
      ∙ no_header in
    let second : read (src_dir ++ name ∷ [])
          (write_all (header_copies (files_in core_inc copied)) copied)
        ≡ read (src_dir ++ name ∷ []) fs =
      read-write_all (src_dir ++ name ∷ []) _ copied
        (header_copies-none name _ (files_in-none core_inc name copied header) own)
      ∙ first in
    read-patch_staged (src_dir ++ name ∷ []) _
    ∙ ap (patched (src_dir ++ name ∷ [])) second
    ∙ patched_plain (src_dir ++ name ∷ []) _ (λ text e. v.plain name text native e)

abbrev pub api_path : FilePath
api_path = src_dir ++ usmp_api ∷ []

pub read-clean_arduino :
    (p : FilePath) (fs : Files)
    → exists src_dir fs ≡ true
    → read p (clean_arduino fs) ≡ (
        if path_eq p api_path
        then some arduino_shim
        else if is_stray (file_in src_dir p)
        then none
        else read p fs)
unfolding clean_arduino
read-clean_arduino p fs h = rw h (elim (Bool-cases (path_eq p api_path)) [
  | inl e ↦ rw e (rw (eq_of_path_eq p api_path e) (read-write api_path arduino_shim _))
  | inr e ↦ rw e (
      read-write_ne p api_path arduino_shim _ e
      ∙ read-remove_if (λ q. is_stray (file_in src_dir q)) p fs)
])

-- What bundling may change of a tidy repository, besides the paths of a test.
pub record IsRestorable (aside : FilePath → Bool) (fs bundled : Files) : Type 0 where
  pub there : exists src_dir bundled ≡ true
  pub elsewhere :
      (p : FilePath)
      → aside p ≡ false
      → file_in src_dir p ≡ none
      → under core_dest p ≡ none
      → read p bundled ≡ read p fs
  pub native :
      (name : Bytes)
      → is_among name native_files ≡ true
      → bytes_eq name usmp_api ≡ false
      → read (src_dir ++ name ∷ []) bundled ≡ read (src_dir ++ name ∷ []) fs

false_of_not : (b : Bool) → not b ≡ true → b ≡ false
false_of_not true h = cc
false_of_not false h = refl

true_of_not : (b : Bool) → not b ≡ false → b ≡ true
true_of_not true h = refl
true_of_not false h = cc

path_of_name :
    (name : Bytes)
    → path_eq (src_dir ++ name ∷ []) api_path ≡ false
    → bytes_eq name usmp_api ≡ false
unfolding path_eq
path_of_name name h = sym (path_eq-append src_dir name usmp_api) ∙ h

module _ (aside : FilePath → Bool) (fs bundled : Files) (v : IsTidy fs)
    (w : IsRestorable aside fs bundled) where
  -- A file of the source directory.
  kept_name :
      (name : Bytes)
      → path_eq (src_dir ++ name ∷ []) api_path ≡ false
      → (if not (is_among name native_files) then none else read (src_dir ++ name ∷ []) bundled)
        ≡ read (src_dir ++ name ∷ []) fs
  kept_name name own = elim (Bool-cases (not (is_among name native_files))) [
    | inl stray ↦ rw stray (sym (v.strays name (false_of_not _ stray)))
    | inr kept ↦ rw kept (w.native name (true_of_not _ kept) (path_of_name name own))
  ]

  kept :
      (p : FilePath)
      → aside p ≡ false
      → under core_dest p ≡ none
      → path_eq p api_path ≡ false
      → (if is_stray (file_in src_dir p) then none else read p bundled) ≡ read p fs
  kept p free away own = elim (Option-cases (file_in src_dir p)) [
    | inl outside ↦ rw outside (w.elsewhere p free outside away)
    | inr (name, inside) ↦
        let e : p ≡ src_dir ++ name ∷ [] = file_in-eq src_dir p name inside in
        rw inside (rw e (kept_name name (rw e at own)))
  ]

  pub restored :
      (p : FilePath)
      → aside p ≡ false
      → read p (rmtree core_dest (clean_arduino bundled)) ≡ read p fs
  unfolding rmtree
  restored p free =
      read-remove_if (is_under core_dest) p (clean_arduino bundled)
      ∙ elim (Option-cases (under core_dest p)) [
        | inr (below, inside) ↦
            rw inside (sym (rw (under-eq core_dest p below inside) (v.unbundled below)))
        | inl away ↦ rw away (
            read-clean_arduino p bundled w.there ∙ elim (Bool-cases (path_eq p api_path)) [
              | inl e ↦ rw e (rw (eq_of_path_eq p api_path e) (sym v.shim))
              | inr e ↦ rw e (kept p free away e)
            ])
      ]
