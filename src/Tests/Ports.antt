-- ===== src/Tests/Ports.antt =====
-- Bundling and cleaning the ports at concrete files.
use usmp.Prelude.{
  ◌≡◌, refl, Bool, true, false, ◌&&◌, none, some, [], ◌∷◌, ◌++◌, Bytes, bytes_eq, eq_of_bytes_eq,
  if◌then◌else◌, arith, Bool-cases, inl, inr,
}
use usmp.Prelude.Dict.{get, IsDict}
use usmp.Prelude.Texts.{codes}
use usmp.Errors.{ok}
use usmp.Ports.{
  src_dir, core_dest, esp32_license, license_file, core_src, core_inc, usmp_api, arduino_shim,
  native_files, is_among, suffix, is_header, staged_name, stage_arduino, patch, sub_include,
  has_include, include_length, after_spaces, zip_path, archived,
}
use usmp.Ports.Commands.{Repository, all_ports, main}
use usmp.Release.{starts_with}
use usmp.Ports.Paths.{FilePath, path_key, Files, read, path_eq, exists, under}
use usmp.Ports.Staged.{is_patched, staged_core}
use usmp.Ports.Tidy.{IsTidy}
use usmp.Ports.Restore.{is_zipped, main_restores}

-- One file of each kind.
abbrev files : Files
files =
    (src_dir ++ usmp_api ∷ [], arduino_shim)
    ∷ (src_dir ++ codes "USMP.cpp" ∷ [], codes "#include \"USMP.h\"")
    ∷ (core_src ++ codes "usmp_a.c" ∷ [], codes "#include <usmp.h>")
    ∷ (core_inc ++ codes "usmp.h" ∷ [], codes "#pragma once")
    ∷ (license_file, codes "MIT")
    ∷ (esp32_license, codes "MIT")
    ∷ []

strays :
    (name : Bytes) → is_among name native_files ≡ false → read (src_dir ++ name ∷ []) files ≡ none
unfolding is_among get path_eq
strays name h = ground (arith, h)

-- A name of the core's is none of the port's.
other_name :
    (name other : Bytes)
    → is_among name native_files ≡ true
    → is_among other native_files ≡ false
    → bytes_eq name other ≡ false
other_name name other native foreign = elim (Bool-cases (bytes_eq name other)) [
  | inl e ↦
      let both : is_among other native_files ≡ true = rw (eq_of_bytes_eq name other e) at native in
      cc
  | inr e ↦ e
]

apart :
    (name : Bytes)
    → is_among name native_files ≡ true
    → bytes_eq name usmp_api ≡ false
    → (read (core_src ++ name ∷ []) files ≡ none) × (read (core_inc ++ name ∷ []) files ≡ none)
unfolding is_among get path_eq
apart name native own =
    let source : bytes_eq name (codes "usmp_a.c") ≡ false =
      other_name name (codes "usmp_a.c") native refl in
    let header : bytes_eq name (codes "usmp.h") ≡ false =
      other_name name (codes "usmp.h") native refl in
    (rw source refl, rw header refl)

unbundled : (below : FilePath) → read (core_dest ++ below) files ≡ none
unfolding get path_eq
unbundled below = refl

-- The shim forwards by a path, not by the name.
shim_plain : has_include arduino_shim ≡ false
unfolding arduino_shim has_include include_length starts_with after_spaces
shim_plain = refl

plain_own :
    (own cpp : Bool) (text : Bytes)
    → (if own && true
        then some arduino_shim
        else if cpp && true
        then some (codes "#include \"USMP.h\"")
        else none)
      ≡ some text
    → has_include text ≡ false
unfolding has_include include_length starts_with after_spaces
plain_own true cpp text h = let e : arduino_shim ≡ text = cc in rw (← e) shim_plain
plain_own false true text h = let e : codes "#include \"USMP.h\"" ≡ text = cc in rw (← e) refl
plain_own false false text h = cc

plain :
    (name text : Bytes)
    → is_among name native_files ≡ true
    → read (src_dir ++ name ∷ []) files ≡ some text
    → has_include text ≡ false
unfolding get path_eq
plain name text native h =
    plain_own (bytes_eq name usmp_api) (bytes_eq name (codes "USMP.cpp")) text h

files-IsTidy : IsTidy files
unfolding get path_eq exists under
files-IsTidy = record {
  shim = refl;
  strays = strays;
  apart = apart;
  plain = plain;
  unbundled = unbundled;
  license = λ text h. h;
  sources = (refl, refl);
}

abbrev repository : Repository
repository = record { files = files }

-- What stands for `zipfile`: the texts one after the other.
abbrev joined : Files → Bytes
joined [] = []
joined ((p, text) ∷ rest) = text ++ joined rest

main_restores_example :
    (out : Repository) × (main joined false (some all_ports) true repository ≡ (ok 0, out))
    × ((p : FilePath)
        → (is_zipped all_ports true && path_eq p (zip_path (stage_arduino files))) ≡ false
        → read p (main joined true none false out).1.files ≡ read p files)
    × (is_zipped all_ports true ≡ true
        → read (zip_path (stage_arduino files)) (main joined true none false out).1.files
          ≡ some (joined (archived (stage_arduino files))))
main_restores_example = main_restores joined all_ports true repository files-IsTidy

files-IsDict : IsDict path_key files
unfolding get path_eq
files-IsDict = (refl, (refl, (refl, (refl, (refl, (refl, tt))))))

is_source : is_among (suffix (codes "usmp_a.c")) (codes ".c" ∷ codes ".h" ∷ []) ≡ true
unfolding is_among suffix
is_source = refl

header_is_patched : is_patched (staged_name (codes "usmp.h")) ≡ true
unfolding is_among suffix
header_is_patched = refl

usmp_h-is_header : is_header (codes "usmp.h") ≡ true
unfolding is_header
usmp_h-is_header = refl

no_api : read (core_inc ++ usmp_api ∷ []) files ≡ none
unfolding get path_eq
no_api = refl

source_there : read (core_src ++ codes "usmp_a.c" ∷ []) files ≡ some (codes "#include <usmp.h>")
unfolding get path_eq
source_there = refl

source_apart : read (core_inc ++ codes "usmp_a.c" ∷ []) files ≡ none
unfolding get path_eq
source_apart = refl

header_there : read (core_inc ++ codes "usmp.h" ∷ []) files ≡ some (codes "#pragma once")
unfolding get path_eq
header_there = refl

staged_core_example :
    (read (src_dir ++ codes "usmp_a.c" ∷ []) (stage_arduino files)
      ≡ some (patch (codes "#include <usmp.h>")))
    × (read (src_dir ++ staged_name (codes "usmp.h") ∷ []) (stage_arduino files)
        ≡ some (patch (codes "#pragma once")))
staged_core_example =
    staged_core files (codes "usmp_a.c") (codes "#include <usmp.h>") (codes "usmp.h")
      (codes "#pragma once") files-IsDict no_api is_source source_there source_apart refl
      usmp_h-is_header header_is_patched header_there

-- The include of the core's header becomes that of the staged one.
patched_text : patch (codes "#include <usmp.h>;") ≡ codes "#include \"usmp_api.h\";"
unfolding patch has_include sub_include include_length starts_with after_spaces
patched_text = refl
