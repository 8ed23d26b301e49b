-- ===== src/Release/Changelog.antt =====
-- `extract_changelog_section` and `main` of scripts/extract-release-notes.py. Texts are ASCII, and the
-- output directory can be written.
pub mod Section
use usmp.Prelude.{
  ℕ, ◌+◌, Bool, true, false, not, ◌&&◌, ◌||◌, Option, none, some, List, [], ◌∷◌, ◌++◌, Bytes,
  bytes_eq, length, take, drop, ◌==◌, if◌then◌else◌,
}
use usmp.Prelude.Dict.{is_present}
use usmp.Prelude.Texts.{codes}
use usmp.Release.{
  is_space, is_empty, strip, starts_with, before_dash, NotesComponent, python_notes, arduino_notes,
  esp32_notes, core_notes, custom_notes, parse_tag_info,
}

abbrev pub then_match {ℓ} : {A : Type 0} {B : Type ℓ} → Option A → (A → Option B) → Option B
then_match none next = none
then_match (some a) next = next a

abbrev pub or_match {ℓ} : {A : Type ℓ} → Option A → Option A → Option A
or_match none other = other
or_match (some a) other = some a

-- What follows a literal text.
unfoldable pub literal : Bytes → Bytes → Option Bytes
unfolding starts_with
literal p text = if starts_with p text then some (drop (length p) text) else none

-- `\s+` before something else, by whether a space has been seen.
unfoldable pub after_spaces : Bool → Bytes → Option Bytes
after_spaces seen [] = none
after_spaces seen (c ∷ cs) =
    let further = after_spaces true cs in
    if is_space c then further else if seen then some (c ∷ cs) else none

-- `[^\n]*\n`.
unfoldable pub after_line : Bytes → Option Bytes
after_line [] = none
after_line (c ∷ cs) = let later = after_line cs in if c == 10 then some cs else later

-- `##\s+\[`.
unfoldable pub opening : Bytes → Option Bytes
opening text =
    then_match (literal (codes "##") text)
      (λ t. then_match (after_spaces false t) (λ u. literal (codes "[") u))

-- The heading of a version, and what follows its line.
unfoldable pub heading : Bytes → Bytes → Option Bytes
heading ver text = then_match (opening text) (λ t.
    or_match (then_match (literal (codes "v" ++ (ver ++ codes "]")) t) after_line)
      (then_match (literal (ver ++ codes "]") t) after_line))

-- `[\s\S]*?` up to the next heading or the end.
unfoldable pub section_body : Bytes → Bytes
section_body [] = []
section_body (c ∷ cs) =
    let rest = section_body cs in if c == 10 && is_present (opening cs) then [] else c ∷ rest

abbrev pub or_body : Option Bytes → Option Bytes → Option Bytes
or_body none later = later
or_body (some rest) later = some (section_body rest)

-- `re.search`, by whether a line begins here.
unfoldable pub search_section : Bytes → Bool → Bytes → Option Bytes
search_section ver begins [] = none
search_section ver begins (c ∷ cs) =
    or_body (if begins then heading ver (c ∷ cs) else none) (search_section ver (c == 10) cs)

-- `re.sub(r"\n---\s*$", "", body)`, of a text without spaces at its end.
unfoldable pub drop_rule : Bytes → Bytes
drop_rule [] = []
drop_rule (c ∷ cs) =
    let rest = drop_rule cs in if bytes_eq (c ∷ cs) (codes "\n---") then [] else c ∷ rest

unfoldable pub clean_body : Bytes → Bytes
clean_body body = strip (drop_rule (strip body))

abbrev pub cleaned : Option Bytes → Option Bytes
cleaned none = none
cleaned (some body) = some (clean_body body)

-- `extract_changelog_section`, of the content if the file exists.
unfoldable pub extract_changelog_section : Option Bytes → Bytes → Option Bytes
extract_changelog_section none semver = none
extract_changelog_section (some content) semver = cleaned (search_section semver true content)

-- The third result of `parse_tag_info`.
abbrev pub title_of : NotesComponent → Bytes → Bytes
title_of python_notes semver = codes "USMP Python SDK v" ++ semver
title_of arduino_notes semver = codes "USMP Arduino Port v" ++ semver
title_of esp32_notes semver = codes "USMP ESP32 Port v" ++ semver
title_of core_notes semver = codes "USMP v" ++ semver
title_of custom_notes semver = codes "USMP Release " ++ semver

-- `"-" in semver`.
unfoldable pub has_dash : Bytes → Bool
has_dash [] = false
has_dash (c ∷ cs) = c == 0x2d || has_dash cs

-- The section of the version, or of its base version.
unfoldable pub find_notes : Option Bytes → Bytes → Option Bytes
find_notes changelog semver =
    or_match (extract_changelog_section changelog semver)
      (if has_dash semver then extract_changelog_section changelog (before_dash semver) else none)

unfoldable pub fallback_notes : Bytes → Bytes → Bytes
fallback_notes title semver =
    codes "## "
    ++ (title
        ++ (codes
              "\n\n> [!NOTE]\n> Detailed release notes were not found in `CHANGELOG.md` for version `"
            ++ (semver ++ codes "`. See the automated pull request changelog below.")))

-- `found and notes`.
abbrev pub final_notes : Option Bytes → Bytes → Bytes → Bytes
final_notes none title semver = fallback_notes title semver
final_notes (some notes) title semver =
    if is_empty notes then fallback_notes title semver else notes

-- What `main` writes: the notes, and the parameters for the workflow.
pub record Notes : Type 0 where
  pub title : Bytes
  pub semver : Bytes
  pub component : NotesComponent
  pub has_changelog : Bool
  pub notes_file : Bytes

unfoldable pub release_notes : Bytes → Option Bytes → Notes
release_notes raw_tag changelog =
    let (semver, component) = parse_tag_info raw_tag in
    let title = title_of component semver in
    let notes = find_notes changelog semver in
    record {
      title = title;
      semver = semver;
      component = component;
      has_changelog = is_present notes;
      notes_file = strip (final_notes notes title semver) ++ codes "\n";
    }
