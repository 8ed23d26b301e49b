-- ===== src/Release/Manifests.antt =====
-- `get_manifest_versions` and `main` of scripts/validate-release-tag.py. A manifest is its text, which is
-- ASCII, or `none` when the file does not exist.
pub mod Declared
use usmp.Prelude.{
  ℕ, Bool, true, false, not, ◌||◌, Option, none, some, [], ◌∷◌, ◌++◌, Bytes, ◌==◌, if◌then◌else◌,
}
use usmp.Prelude.Texts.{codes}
use usmp.Errors.{Result, ok}
use usmp.Release.{is_space, is_empty, is_digit, strip, strip_left, Versions, validate_tag}
use usmp.Release.Changelog.{then_match, or_match, literal, after_spaces}

-- `["\']`.
abbrev pub is_quote : ℕ → Bool
is_quote c = (c == 0x22) || (c == 0x27)

-- The longest run of the characters of a class, and what follows it.
unfoldable pub run : (ℕ → Bool) → Bytes → Bytes × Bytes
run class [] = ([], [])
run class (c ∷ cs) =
    let (more, rest) = run class cs in if class c then (c ∷ more, rest) else ([], c ∷ cs)

-- `group+`: a run that is not empty.
abbrev pub run_of_some : (ℕ → Bool) → Bytes → Option (Bytes × Bytes)
run_of_some class text =
    let (more, rest) = run class text in if is_empty more then none else some (more, rest)

-- One character of a class.
abbrev pub one : (ℕ → Bool) → Bytes → Option Bytes
one class [] = none
one class (c ∷ cs) = if class c then some cs else none

-- `key\s*=\s*` with `separator` for `=`.
unfoldable pub after_key : Bytes → Bytes → Bytes → Option Bytes
after_key key separator text =
    then_match (literal key text)
      (λ t. then_match (literal separator (strip_left t)) (λ u. some (strip_left u)))

-- `key\s*=\s*["\']([^"\']+)["\']`, with its group.
unfoldable pub quoted_version : Bytes → Bytes → Option Bytes
quoted_version key text = then_match (after_key key (codes "=") text) (λ t.
    then_match (one is_quote t) (λ u.
      then_match (run_of_some (λ c. not (is_quote c)) u)
        (λ (version, v). then_match (one is_quote v) (λ w. some version))))

-- `\s*` gives back a space that is no line feed when nothing else is left for `.+`.
unfoldable pub has_blank : Bytes → Bool
has_blank [] = false
has_blank (c ∷ cs) = not (c == 10) || has_blank cs

-- `\s*(.+)$`, with its group without the spaces around it.
unfoldable pub rest_of_line : Bytes → Option Bytes
rest_of_line text =
    if is_empty (strip_left text)
    then if has_blank text then some [] else none
    else some (strip (run (λ c. not (c == 10)) (strip_left text)).0)

-- `version\s*=\s*(.+)$`.
unfoldable pub property_version : Bytes → Option Bytes
property_version text =
    then_match (literal (codes "version") text)
      (λ t. then_match (literal (codes "=") (strip_left t)) rest_of_line)

-- `["\']?`.
abbrev pub drop_quote : Bytes → Bytes
drop_quote [] = []
drop_quote (c ∷ cs) = if is_quote c then cs else c ∷ cs

-- `version\s*:\s*["\']?([^"\'\s]+)["\']?`.
unfoldable pub yaml_version : Bytes → Option Bytes
yaml_version text = then_match (after_key (codes "version") (codes ":") text) (λ t.
    then_match (run_of_some (λ c. not (is_quote c || is_space c)) (drop_quote t))
      (λ (version, u). some version))

-- `re.search` of a pattern that begins with `(?m)^`, by whether a line begins here.
unfoldable pub search_line : (Bytes → Option Bytes) → Bool → Bytes → Option Bytes
search_line pattern begins [] = none
search_line pattern begins (c ∷ cs) =
    or_match (if begins then pattern (c ∷ cs) else none) (search_line pattern (c == 10) cs)

-- `#define\s+NAME\s+(\d+)`.
unfoldable pub macro : Bytes → Bytes → Option Bytes
macro name text = then_match (literal (codes "#define") text) (λ t.
    then_match (after_spaces false t) (λ u. then_match (literal name u) (λ v.
      then_match (after_spaces false v)
        (λ w. then_match (run_of_some is_digit w) (λ (digits, x). some digits)))))

-- `re.search` of a pattern that can begin anywhere.
unfoldable pub search : (Bytes → Option Bytes) → Bytes → Option Bytes
search pattern [] = none
search pattern (c ∷ cs) = or_match (pattern (c ∷ cs)) (search pattern cs)

unfoldable pub core_version : Bytes → Option Bytes
core_version text = then_match (search (macro (codes "USMP_VERSION_MAJOR")) text) (λ major.
    then_match (search (macro (codes "USMP_VERSION_MINOR")) text) (λ minor.
      then_match (search (macro (codes "USMP_VERSION_PATCH")) text)
        (λ patch. some (major ++ 0x2e ∷ minor ++ 0x2e ∷ patch))))

abbrev pub stripped : Option Bytes → Option Bytes
stripped version = then_match version (λ v. some (strip v))

-- The files that `get_manifest_versions` reads.
pub record Manifests : Type 0 where
  pub pyproject : Option Bytes
  pub init : Option Bytes
  pub library_properties : Option Bytes
  pub idf_component : Option Bytes
  pub root_pyproject : Option Bytes
  pub usmp_h : Option Bytes

unfoldable pub declared : Bytes → Option Bytes → Option Bytes
declared key file = then_match file (λ text. stripped (search_line (quoted_version key) true text))

-- `get_manifest_versions`.
unfoldable pub get_manifest_versions : Manifests → Versions
get_manifest_versions files = record {
  python = declared (codes "version") files.pyproject;
  python_init = declared (codes "__version__") files.init;
  arduino =
      then_match files.library_properties
        (λ text. stripped (search_line property_version true text));
  esp32 = then_match files.idf_component (λ text. stripped (search_line yaml_version true text));
  workspace = declared (codes "version") files.root_pyproject;
  c_core = then_match files.usmp_h core_version;
}

-- `main`, with the tag of the command line or of `RAW_TAG`.
unfoldable validator_main : Manifests → Option (Result (Unit {0})) → Bytes → Result ℕ
validator_main files output tag =
    if is_empty tag then ok 1 else validate_tag (get_manifest_versions files) output tag
