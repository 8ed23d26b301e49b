-- ===== src/Release.antt =====
-- scripts/validate-release-tag.py, and the reading of tags in scripts/extract-release-notes.py. Texts
-- are ASCII; the versions that the manifests declare are arguments, which Release/Manifests reads, and so
-- is how the writing of the outputs ends.
pub mod Validation
pub mod Notes
pub mod Changelog
pub mod Manifests
use usmp.Prelude.{
  ℕ, ◌≡◌, ◌+◌, Bool, true, false, not, ◌&&◌, ◌||◌, Option, none, some, List, [], ◌∷◌, ◌++◌, Bytes,
  bytes_eq, length, take, drop, leb, ◌==◌, if◌then◌else◌,
}
use usmp.Errors.{Error, Result, ok, err, raise_if, ◌>>=◌, value_error, is_os_error, is_value_error}

-- `str.isspace`, of ASCII.
abbrev pub is_space : ℕ → Bool
is_space c = (c == 32) || ((leb 9 c && leb c 13) || (leb 28 c && leb c 31))

unfoldable pub strip_left : Bytes → Bytes
strip_left [] = []
strip_left (c ∷ cs) = let stripped = strip_left cs in if is_space c then stripped else c ∷ cs

abbrev pub is_empty : Bytes → Bool
is_empty [] = true
is_empty (c ∷ cs) = false

unfoldable pub strip_right : Bytes → Bytes
strip_right [] = []
strip_right (c ∷ cs) =
    let stripped = strip_right cs in if is_space c && is_empty stripped then [] else c ∷ stripped

-- `text.strip()`.
unfoldable pub strip : Bytes → Bytes
strip text = strip_right (strip_left text)

-- `text.startswith(prefix)`.
unfoldable pub starts_with : Bytes → Bytes → Bool
starts_with prefix text = bytes_eq (take (length prefix) text) prefix

-- `text.removeprefix(prefix)`.
unfoldable pub removeprefix : Bytes → Bytes → Bytes
removeprefix prefix text = if starts_with prefix text then drop (length prefix) text else text

-- `"python-v"`, `"arduino-v"`, `"esp-v"` and `"v"`.
abbrev pub letter_v : Bytes
letter_v = 0x76 ∷ []

abbrev pub python_dash : Bytes
python_dash = 0x70 ∷ 0x79 ∷ 0x74 ∷ 0x68 ∷ 0x6f ∷ 0x6e ∷ 0x2d ∷ []

abbrev pub arduino_dash : Bytes
arduino_dash = 0x61 ∷ 0x72 ∷ 0x64 ∷ 0x75 ∷ 0x69 ∷ 0x6e ∷ 0x6f ∷ 0x2d ∷ []

abbrev pub esp_dash : Bytes
esp_dash = 0x65 ∷ 0x73 ∷ 0x70 ∷ 0x2d ∷ []

abbrev pub is_digit : ℕ → Bool
is_digit c = leb 48 c && leb c 57

-- `[0-9A-Za-z\.-]`.
abbrev pub is_suffix_char : ℕ → Bool
is_suffix_char c =
    is_digit c
    || ((leb 65 c && leb c 90) || ((leb 97 c && leb c 122) || ((c == 0x2e) || (c == 0x2d))))

-- `$`: the end, or a last line feed.
abbrev pub at_end : Bytes → Bool
at_end [] = true
at_end (c ∷ cs) = (c == 10) && is_empty cs

-- `[0-9A-Za-z\.-]+$`.
unfoldable pub is_suffix : Bytes → Bool
is_suffix [] = false
is_suffix (c ∷ cs) = is_suffix_char c && (at_end cs || is_suffix cs)

-- `([-\.][0-9A-Za-z\.-]+)?$`.
abbrev pub is_tail : Bytes → Bool
is_tail [] = true
is_tail (c ∷ cs) = at_end (c ∷ cs) || (((c == 0x2d) || (c == 0x2e)) && is_suffix cs)

-- `\d+` and then the pattern of what follows; a digit never begins what follows.
unfoldable pub digits_then : (Bytes → Bool) → Bytes → Bool
digits_then next [] = false
digits_then next (c ∷ cs) = let more = digits_then next cs in is_digit c && (next cs || more)

abbrev pub dot_then : (Bytes → Bool) → Bytes → Bool
dot_then next [] = false
dot_then next (c ∷ cs) = (c == 0x2e) && next cs

-- `re.match(r"^\d+\.\d+\.\d+([-\.][0-9A-Za-z\.-]+)?$", semver)`.
unfoldable pub is_semver : Bytes → Bool
is_semver semver = digits_then (dot_then (digits_then (dot_then (digits_then is_tail)))) semver

pub data Target : Type 0 where
  python arduino esp32 all : Target

-- `(target, clean_tag, semver, flags)`.
pub record Tag : Type 0 where
  pub target : Target
  pub clean_tag : Bytes
  pub semver : Bytes
  pub for_python : Bool
  pub for_arduino : Bool
  pub for_esp32 : Bool

-- The target and the tag without its prefix.
unfoldable pub target_of : Bytes → Result (Target × Bytes)
target_of tag =
    if starts_with (python_dash ++ letter_v) tag
    then ok (Target.python, removeprefix python_dash tag)
    else if starts_with (arduino_dash ++ letter_v) tag
    then ok (Target.arduino, removeprefix arduino_dash tag)
    else if starts_with (esp_dash ++ letter_v) tag
    then ok (Target.esp32, removeprefix esp_dash tag)
    else if starts_with letter_v tag
    then ok (Target.all, tag)
    else err value_error

abbrev pub is_for_python : Target → Bool
is_for_python Target.python = true
is_for_python Target.all = true
is_for_python _ = false

abbrev pub is_for_arduino : Target → Bool
is_for_arduino Target.arduino = true
is_for_arduino Target.all = true
is_for_arduino _ = false

abbrev pub is_for_esp32 : Target → Bool
is_for_esp32 Target.esp32 = true
is_for_esp32 Target.all = true
is_for_esp32 _ = false

abbrev pub is_for_all : Target → Bool
is_for_all Target.all = true
is_for_all _ = false

-- From the SemVer check on.
abbrev pub checked_tag : Target × Bytes → Result Tag
checked_tag (target, clean_tag) =
    let semver = removeprefix letter_v clean_tag in
    if is_semver semver
    then ok (record {
      target = target;
      clean_tag = clean_tag;
      semver = semver;
      for_python = is_for_python target;
      for_arduino = is_for_arduino target;
      for_esp32 = is_for_esp32 target;
    })
    else err value_error

-- `parse_tag`.
unfoldable pub parse_tag : Bytes → Result Tag
parse_tag raw_tag = target_of (strip raw_tag) >>= checked_tag

-- `get_manifest_versions()`.
pub record Versions : Type 0 where
  pub python : Option Bytes
  pub python_init : Option Bytes
  pub arduino : Option Bytes
  pub esp32 : Option Bytes
  pub workspace : Option Bytes
  pub c_core : Option Bytes

-- `semver.split("-")[0]`.
unfoldable pub before_dash : Bytes → Bytes
before_dash [] = []
before_dash (c ∷ cs) = let before = before_dash cs in if c == 0x2d then [] else c ∷ before

-- What `errors` gets for one manifest.
pub data Problem : Type 0 where
  missing mismatch : Problem

unfoldable pub check_version : Option Bytes → Bytes → List Problem
check_version none expected = missing ∷ []
check_version (some version) expected =
    if is_empty version
    then missing ∷ []
    else if bytes_eq version expected
    then []
    else mismatch ∷ []

abbrev pub when : Bool → List Problem → List Problem
when flag problems = if flag then problems else []

-- `errors`.
unfoldable pub problems : Versions → Tag → List Problem
problems versions tag =
    when tag.for_python
      (check_version versions.python tag.semver ++ check_version versions.python_init tag.semver)
    ++ (when tag.for_arduino (check_version versions.arduino tag.semver)
        ++ (when tag.for_esp32 (check_version versions.esp32 tag.semver)
            ++ when (is_for_all tag.target) (
                check_version versions.workspace tag.semver
                ++ check_version versions.c_core (before_dash tag.semver))))

-- The writing of the outputs: not asked for, or how it ends.
abbrev pub write_outputs : Option (Result (Unit {0})) → Result ℕ
write_outputs none = ok 0
write_outputs (some (ok u)) = ok 0
write_outputs (some (err e)) = if is_os_error e then ok 1 else err e

abbrev pub has_problems : List Problem → Bool
has_problems [] = false
has_problems (p ∷ rest) = true

abbrev pub validate_parsed : Versions → Option (Result (Unit {0})) → Result Tag → Result ℕ
validate_parsed versions output (err e) = if is_value_error e then ok 1 else err e
validate_parsed versions output (ok tag) =
    if has_problems (problems versions tag) then ok 1 else write_outputs output

-- `validate_tag`, whose result is the exit code.
unfoldable pub validate_tag : Versions → Option (Result (Unit {0})) → Bytes → Result ℕ
validate_tag versions output raw_tag = validate_parsed versions output (parse_tag raw_tag)

-- `parse_tag_info` of extract-release-notes.py; `title_of` of Release/Changelog gives the title.
pub data NotesComponent : Type 0 where
  python_notes arduino_notes esp32_notes core_notes custom_notes : NotesComponent

unfoldable pub tag_info : Bytes → Bytes × NotesComponent
tag_info tag =
    if starts_with (python_dash ++ letter_v) tag
    then (removeprefix (python_dash ++ letter_v) tag, python_notes)
    else if starts_with (arduino_dash ++ letter_v) tag
    then (removeprefix (arduino_dash ++ letter_v) tag, arduino_notes)
    else if starts_with (esp_dash ++ letter_v) tag
    then (removeprefix (esp_dash ++ letter_v) tag, esp32_notes)
    else if starts_with letter_v tag
    then (removeprefix letter_v tag, core_notes)
    else (tag, custom_notes)

unfoldable pub parse_tag_info : Bytes → Bytes × NotesComponent
parse_tag_info raw_tag = tag_info (strip raw_tag)
