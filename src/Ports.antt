-- ===== src/Ports.antt =====
-- scripts/bundle-ports.py, on the files of the repository by their paths. Names and texts are ASCII
-- but for one dash; reading and writing a file does not fail, and what a directory holds besides
-- files is not touched.
pub mod Paths
pub mod Commands
pub mod Copies
pub mod Trees
pub mod Staged
pub mod Tidy
pub mod Restore
use usmp.Prelude.{
  ℕ, zero, suc, ◌+◌, ◌-◌, Bool, true, false, not, ◌&&◌, ◌||◌, Option, none, some, List, [], ◌∷◌,
  ◌++◌, Bytes, bytes_eq, length, take, drop, leb, ◌==◌, if◌then◌else◌,
}
use usmp.Prelude.Dict.{is_present}
use usmp.Prelude.Texts.{codes}
use usmp.Errors.{Error, Result, ok, err, runtime_error, os_error}
use usmp.Release.{is_space, starts_with, strip}
use Paths.{FilePath, path_eq, Files, read, write, under, file_in, exists, remove_if, only_name}

-- `ARDUINO_PORT_DIR`, `ESP32_PORT_DIR`, and the directories and files used.
abbrev pub arduino_dir : FilePath
arduino_dir = codes "ports" ∷ codes "usmp-arduino" ∷ []

abbrev pub src_dir : FilePath
src_dir = codes "ports" ∷ codes "usmp-arduino" ∷ codes "src" ∷ []

abbrev pub core_dest : FilePath
core_dest = codes "ports" ∷ codes "usmp-esp32" ∷ codes "core" ∷ []

abbrev pub esp32_license : FilePath
esp32_license = codes "ports" ∷ codes "usmp-esp32" ∷ codes "LICENSE" ∷ []

abbrev pub license_file : FilePath
license_file = codes "LICENSE" ∷ []

abbrev pub core_src : FilePath
core_src = codes "core" ∷ codes "src" ∷ []

abbrev pub core_inc : FilePath
core_inc = codes "core" ∷ codes "include" ∷ []

abbrev pub usmp_header : Bytes
usmp_header = codes "usmp.h"

abbrev pub usmp_api : Bytes
usmp_api = codes "usmp_api.h"

-- `ARDUINO_SHIM_CONTENT`.
unfoldable pub arduino_shim : Bytes
arduino_shim =
    codes "#pragma once\n\n/*\n * usmp_api.h — repo-local shim; NOT the header that ships.\n *\n"
    ++ (codes
          " * The Arduino wrappers include \"usmp_api.h\" because the packaged library renames\n"
        ++ (codes
              " * the core public header (core/include/usmp.h) to usmp_api.h at build time, to\n"
            ++ (codes
                  " * dodge the USMP.h vs usmp.h collision on case-insensitive filesystems.\n *\n"
                ++ (codes
                      " * In the repo this file forwards to the real core header, so there is ONE source\n"
                    ++ (codes " * of truth and nothing to hand-sync. At package time\n"
                        ++ (codes
                              " * scripts/build-arduino-zip.{sh,ps1} OVERWRITES this shim with the actual\n"
                            ++ (codes
                                  " * core/include/usmp.h, so the forward below never ships — it exists only for\n"
                                ++ (codes " * editor indexing and standalone compilation.\n *\n"
                                    ++ (codes
                                          " * The path is explicit and relative (not a bare \"usmp.h\"): on a case-insensitive\n"
                                        ++ (codes
                                              " * filesystem a bare include would match the sibling USMP.h (the Arduino class\n"
                                            ++ (codes
                                                  " * header) instead of core's usmp.h — the very collision the packaging step works\n"
                                                ++ (codes
                                                      " * around.\n */\n#ifndef USMP_TEST_MAIN\n"
                                                    ++ codes
                                                        "#include \"../../../core/include/usmp.h\"\n#endif\n"))))))))))))

-- `NATIVE_ARDUINO_SRC_FILES`.
abbrev pub native_files : List Bytes
native_files =
    codes "USMP.cpp"
    ∷ codes "USMP.h"
    ∷ codes "USMPTransport.cpp"
    ∷ codes "USMPTransport.h"
    ∷ usmp_api
    ∷ codes "usmp_port_arduino.cpp"
    ∷ []

-- `name in names`.
unfoldable pub is_among : Bytes → List Bytes → Bool
is_among name [] = false
is_among name (n ∷ names) = bytes_eq name n || is_among name names

abbrev pub with_file : Option Bytes → Bytes → List (Bytes × Bytes) → List (Bytes × Bytes)
with_file none text rest = rest
with_file (some name) text rest = (name, text) ∷ rest

-- The files in a directory itself, by name: `glob("*")` with `is_file()`.
unfoldable pub files_in : FilePath → Files → List (Bytes × Bytes)
files_in dir [] = []
files_in dir ((p, text) ∷ rest) = with_file (file_in dir p) text (files_in dir rest)

-- The text from its last dot on.
unfoldable pub last_dot : Bytes → Option Bytes
last_dot [] = none
last_dot (c ∷ cs) = elim (last_dot cs) [
  | some t ↦ some t
  | none ↦ if c == 0x2e then some (c ∷ cs) else none
]

abbrev pub suffix_of : Option Bytes → Bytes
suffix_of none = []
suffix_of (some t) = if length t == 1 then [] else t

-- `Path.suffix`: a dot at the start or at the end of a name begins none.
unfoldable pub suffix : Bytes → Bytes
unfolding last_dot
suffix [] = []
suffix (c ∷ cs) = suffix_of (last_dot cs)

-- `fnmatch` of a name with `*.h`.
unfoldable pub is_header : Bytes → Bool
is_header [] = false
is_header (c ∷ cs) = bytes_eq (c ∷ cs) (codes ".h") || is_header cs

-- Copies, one after the other, of texts to paths.
unfoldable pub write_all : Files → Files → Files
write_all [] fs = fs
write_all ((p, text) ∷ rest) fs = write_all rest (write p text fs)

-- Step 1 of `bundle_arduino`: the copies of the C and H files of core/src.
unfoldable pub source_copies : List (Bytes × Bytes) → Files
source_copies [] = []
source_copies ((name, text) ∷ files) =
    let rest = source_copies files in
    if is_among (suffix name) (codes ".c" ∷ codes ".h" ∷ [])
    then (src_dir ++ name ∷ [], text) ∷ rest
    else rest

-- The name under which a header is staged.
abbrev pub staged_name : Bytes → Bytes
staged_name name = if bytes_eq name usmp_header then usmp_api else name

-- Step 2: the copies of the public headers.
unfoldable pub header_copies : List (Bytes × Bytes) → Files
header_copies [] = []
header_copies ((name, text) ∷ files) =
    let rest = header_copies files in
    if is_header name then (src_dir ++ staged_name name ∷ [], text) ∷ rest else rest

-- `["<]usmp\.h[">]`, and the length of what matches.
abbrev pub quoted_header : Bytes → ℕ → Option ℕ
quoted_header text before =
    let first = take 1 text in
    let last = take 1 (drop 7 text) in
    if (bytes_eq first (codes "\"") || bytes_eq first (codes "<"))
      && (bytes_eq (take 6 (drop 1 text)) usmp_header
          && (bytes_eq last (codes "\"") || bytes_eq last (codes ">")))
    then some (before + 8)
    else none

-- `\s+` and what follows; the first argument tells whether a space has been seen.
unfoldable pub after_spaces : Bool → Bytes → ℕ → Option ℕ
after_spaces seen [] before = none
after_spaces seen (c ∷ cs) before =
    let further = after_spaces true cs (before + 1) in
    if is_space c then further else if seen then quoted_header (c ∷ cs) before else none

-- The length of a match of `include_pattern` at the start of the text.
unfoldable pub include_length : Bytes → Option ℕ
include_length text =
    if starts_with (codes "#include") text then after_spaces false (drop 8 text) 8 else none

-- `include_pattern.search(content)`.
unfoldable pub has_include : Bytes → Bool
has_include [] = false
has_include (c ∷ cs) = is_present (include_length (c ∷ cs)) || has_include cs

-- `include_pattern.sub('#include "usmp_api.h"', content)`, with what is left of a match to skip.
unfoldable pub sub_include : ℕ → Bytes → Bytes
sub_include n [] = []
sub_include (suc n) (c ∷ cs) = sub_include n cs
sub_include zero (c ∷ cs) = elim (include_length (c ∷ cs)) [
  | none ↦ c ∷ sub_include zero cs
  | some n ↦ codes "#include \"usmp_api.h\"" ++ sub_include (n - 1) cs
]

unfoldable pub patch : Bytes → Bytes
patch content = if has_include content then sub_include 0 content else content

-- `f.suffix in [".c", ".h", ".cpp"]`, for a file of the directory.
abbrev pub is_staged : Option Bytes → Bool
is_staged none = false
is_staged (some name) = is_among (suffix name) (codes ".c" ∷ codes ".h" ∷ codes ".cpp" ∷ [])

-- Step 3.
unfoldable pub patch_staged : Files → Files
patch_staged [] = []
patch_staged ((p, text) ∷ rest) =
    (p, if is_staged (file_in src_dir p) then patch text else text) ∷ patch_staged rest

-- `bundle_arduino` up to the archive.
unfoldable pub stage_arduino : Files → Files
stage_arduino fs =
    let copied = write_all (source_copies (files_in core_src fs)) fs in
    patch_staged (write_all (header_copies (files_in core_inc copied)) copied)

-- A text ends, and `splitlines()` begins a new line.
abbrev pub is_line_end : ℕ → Bool
is_line_end c = (leb 10 c && leb c 13) || (leb 28 c && leb c 30)

abbrev pub with_char : ℕ → List Bytes → List Bytes
with_char c [] = (c ∷ []) ∷ []
with_char c (line ∷ lines) = (c ∷ line) ∷ lines

-- `splitlines()`; an empty line more after a last line end changes nothing here.
unfoldable pub lines_of : Bytes → List Bytes
lines_of [] = [] ∷ []
lines_of (c ∷ cs) =
    let lines = lines_of cs in if is_line_end c then [] ∷ lines else with_char c lines

-- The first line that begins with `version=`, or `unknown`.
unfoldable pub version_of : List Bytes → Bytes
version_of [] = codes "unknown"
version_of (line ∷ lines) =
    let later = version_of lines in
    if starts_with (codes "version=") line then strip (drop 8 line) else later

abbrev pub version_in : Option Bytes → Bytes
version_in none = codes "unknown"
version_in (some text) = version_of (lines_of text)

-- `zf.write` of every file below the port's directory.
unfoldable pub archived : Files → Files
archived [] = []
archived ((p, text) ∷ rest) = elim (under arduino_dir p) [
  | none ↦ archived rest
  | some rel ↦ (codes "usmp-arduino" ∷ rel, text) ∷ archived rest
]

-- `zip_path`. The version is part of a name: one with a slash in it is not modelled.
unfoldable pub zip_path : Files → FilePath
zip_path fs =
    (codes "usmp-"
      ++ (version_in (read (arduino_dir ++ codes "library.properties" ∷ []) fs)
          ++ codes "-arduino.zip"))
    ∷ []

-- The archive in the root of the repository, where `zip_bytes` is the file that `zipfile` makes of its
-- entries.
unfoldable pub zip_arduino : (Files → Bytes) → Files → Files
zip_arduino zip_bytes fs = write (zip_path fs) (zip_bytes (archived fs)) fs
