-- ===== src/Tests/Releases.antt =====
-- The theorems on release tags at concrete inputs.
use usmp.Prelude.{◌≡◌, refl, true, false, none, some, [], ◌∷◌, ◌++◌, Bytes}
use usmp.Errors.{ok}
use usmp.Release.{
  strip, strip_left, strip_right, starts_with, removeprefix, digits_then, is_suffix, is_semver,
  python_dash, target_of, Target, Tag, parse_tag, Versions, validate_tag, parse_tag_info,
  python_notes,
}
use usmp.Release.Validation.{Declares, validate_tag_passes}
use usmp.Release.Notes.{parse_tag-parse_tag_info}

-- `1.2.3-rc`.
abbrev semver : Bytes
semver = 0x31 ∷ 0x2e ∷ 0x32 ∷ 0x2e ∷ 0x33 ∷ 0x2d ∷ 0x72 ∷ 0x63 ∷ []

-- ` python-v1.2.3-rc` and a line feed.
abbrev raw_tag : Bytes
raw_tag = (0x20 ∷ python_dash) ++ (0x76 ∷ semver) ++ 10 ∷ []

abbrev tag : Tag
tag = record {
  target = Target.python;
  clean_tag = 0x76 ∷ semver;
  semver = semver;
  for_python = true;
  for_arduino = false;
  for_esp32 = false;
}

parsed : parse_tag raw_tag ≡ ok tag
unfolding parse_tag strip strip_left strip_right starts_with removeprefix target_of is_semver
    digits_then is_suffix
parsed = refl

abbrev versions : Versions
versions = record {
  python = some semver;
  python_init = some semver;
  arduino = none;
  esp32 = none;
  workspace = none;
  c_core = none;
}

validate_tag_passes_example :
    (validate_tag versions none raw_tag ≡ ok 0
      → (t : Tag) × (parse_tag raw_tag ≡ ok t) × Declares versions t)
    × ((t : Tag)
        → parse_tag raw_tag ≡ ok t
        → Declares versions t
        → validate_tag versions none raw_tag ≡ ok 0)
validate_tag_passes_example = validate_tag_passes versions raw_tag

parse_tag-parse_tag_info_example : parse_tag_info raw_tag ≡ (semver, python_notes)
parse_tag-parse_tag_info_example = parse_tag-parse_tag_info raw_tag tag parsed
