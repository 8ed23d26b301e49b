-- ===== src/Tests/Changelogs.antt =====
-- Release notes from a concrete changelog.
use usmp.Prelude.{
  ℕ, ◌==◌, ◌||◌, ◌≡◌, refl, Bool, true, false, some, List, [], ◌∷◌, ◌++◌, Bytes, if◌then◌else◌,
  arith,
}
use usmp.Prelude.Dict.{is_present}
use usmp.Prelude.Texts.{codes}
use usmp.Release.{
  is_empty, strip, strip_left, strip_right, starts_with, removeprefix, core_notes, tag_info,
  parse_tag_info,
}
use usmp.Release.Changelog.{
  literal, after_spaces, opening, heading, drop_rule, clean_body, title_of, fallback_notes,
  release_notes,
}
use usmp.Release.Changelog.Section.{
  IsLine, AreLines, AreOther, AreInside, join, changelog, release_notes_section,
}

-- `c in text`.
has_code : ℕ → Bytes → Bool
has_code c [] = false
has_code c (d ∷ ds) = (d == c) || has_code c ds

abbrev version : Bytes
version = codes "1.2.0"

abbrev before : List Bytes
before = codes "# Changelog" ∷ [] ∷ codes "## [1.3.0]" ∷ []

abbrev more : List Bytes
more = codes "Fixed." ∷ codes "---" ∷ []

abbrev following : Bytes
following = codes "## [1.1.0]"

-- A text without a line feed is a line.
unbroken : (l : Bytes) → has_code 10 l ≡ false → IsLine l
unfolding has_code
unbroken [] h = tt
unbroken (c ∷ cs) h = (ground (arith, h), unbroken cs (ground (arith, h)))

before-AreLines : AreLines before
unfolding has_code
before-AreLines =
    (unbroken (codes "# Changelog") refl, (tt, (unbroken (codes "## [1.3.0]") refl, tt)))

today-IsLine : IsLine (codes " today")
unfolding has_code
today-IsLine = unbroken (codes " today") refl

more-AreLines : AreLines more
unfolding has_code
more-AreLines = (unbroken (codes "Fixed.") refl, (unbroken (codes "---") refl, tt))

others : AreOther version before
unfolding heading opening literal after_spaces starts_with
others = (λ rest. refl, (λ rest. refl, (λ rest. refl, tt)))

more-AreInside : AreInside more
unfolding opening literal after_spaces starts_with
more-AreInside = (λ rest. refl, (λ rest. refl, tt))

following_opens : is_present (opening following) ≡ true
unfolding opening literal after_spaces starts_with
following_opens = refl

abbrev text : Bytes
text =
    changelog version (codes " today") before [] more following today-IsLine before-AreLines others
      tt more-AreLines more-AreInside following_opens

abbrev raw_tag : Bytes
raw_tag = codes " v1.2.0"

tag_read : parse_tag_info raw_tag ≡ (version, core_notes)
unfolding parse_tag_info tag_info strip strip_left strip_right starts_with removeprefix
tag_read = refl

release_notes_section_example :
    let title = title_of core_notes version in
    let notes = clean_body (join [] more) in
    release_notes raw_tag (some text) ≡ record {
      title = title;
      semver = version;
      component = core_notes;
      has_changelog = true;
      notes_file =
          strip (if is_empty notes then fallback_notes title version else notes) ++ codes "\n";
    }
release_notes_section_example =
    release_notes_section version (codes " today") before [] more following today-IsLine
      before-AreLines others tt more-AreLines more-AreInside following_opens raw_tag core_notes
      tag_read

-- The rule at the end goes.
notes_cleaned : clean_body (join [] more) ≡ codes "Fixed."
unfolding clean_body drop_rule strip strip_left strip_right
notes_cleaned = refl
