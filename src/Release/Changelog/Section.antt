-- ===== src/Release/Changelog/Section.antt =====
-- The section that scripts/extract-release-notes.py finds in a changelog of lines.
use usmp.Prelude.{
  ◌≡◌, ◌∙◌, refl, ap, true, false, none, some, List, [], ◌∷◌, ◌++◌, Bytes, bytes_eq, bytes_eq_refl,
  length, take, take-append, drop-append, ◌==◌, if◌then◌else◌, arith,
}
use mathlib.Core.List.{append_assoc, append-nil}
use usmp.Prelude.Dict.{is_present}
use usmp.Prelude.Texts.{codes}
use usmp.Release.{starts_with, is_empty, strip, NotesComponent, parse_tag_info}
use usmp.Release.Changelog.{
  literal, after_spaces, after_line, opening, heading, section_body, search_section, clean_body,
  cleaned, extract_changelog_section, find_notes, release_notes, title_of, fallback_notes,
}

-- A line.
abbrev pub IsLine : Bytes → Type 0
IsLine [] = Unit
IsLine (c ∷ cs) = ((c == 10) ≡ false) × IsLine cs

abbrev pub AreLines : List Bytes → Type 0
AreLines [] = Unit
AreLines (l ∷ ls) = IsLine l × AreLines ls

-- A line that is no heading of the version, and one that begins no section.
abbrev pub IsOther : Bytes → Bytes → Type 0
IsOther ver line = (rest : Bytes) → heading ver (line ++ 10 ∷ rest) ≡ none

abbrev pub AreOther : Bytes → List Bytes → Type 0
AreOther ver [] = Unit
AreOther ver (l ∷ ls) = IsOther ver l × AreOther ver ls

abbrev pub AreInside : List Bytes → Type 0
AreInside [] = Unit
AreInside (l ∷ ls) = ((rest : Bytes) → opening (l ++ 10 ∷ rest) ≡ none) × AreInside ls

-- Lines before a text.
abbrev pub lines_before : List Bytes → Bytes → Bytes
lines_before [] text = text
lines_before (l ∷ ls) text = l ++ 10 ∷ lines_before ls text

-- A first line and more, joined.
abbrev pub join : Bytes → List Bytes → Bytes
join l [] = l
join l (m ∷ ms) = l ++ 10 ∷ join m ms

abbrev pub heading_line : Bytes → Bytes → Bytes
heading_line ver tail = codes "## [" ++ ((ver ++ codes "]") ++ tail)

literal-append : (p rest : Bytes) → literal p (p ++ rest) ≡ some rest
unfolding literal
literal-append p rest =
    rw (take-append p rest (length p) refl, bytes_eq_refl p, drop-append p rest (length p) refl)
      refl

-- A `v` before the version is not the version.
with_v :
    (ver rest : Bytes)
    → bytes_eq
        (take (length (0x76 ∷ ver ++ 0x5d ∷ [])) (ver ++ 0x5d ∷ rest))
        (0x76 ∷ ver ++ 0x5d ∷ [])
      ≡ false
with_v [] rest = refl
with_v (c ∷ ver) rest = ground (arith, with_v ver rest)

literal-with_v :
    (ver rest : Bytes)
    → literal (codes "v" ++ (ver ++ codes "]")) ((ver ++ codes "]") ++ rest) ≡ none
unfolding literal starts_with
literal-with_v ver rest = rw (append_assoc ver (codes "]") rest, with_v ver rest) refl

after_line-eq : (line rest : Bytes) → IsLine line → after_line (line ++ 10 ∷ rest) ≡ some rest
unfolding after_line
after_line-eq [] rest h = refl
after_line-eq (c ∷ line) rest (hc, h) = rw (hc, after_line-eq line rest h) refl

opening-eq : (text : Bytes) → opening (codes "## [" ++ text) ≡ some text
unfolding opening literal after_spaces starts_with
opening-eq text = refl

heading-eq :
    (ver tail rest : Bytes)
    → IsLine tail
    → heading ver (heading_line ver tail ++ 10 ∷ rest) ≡ some rest
unfolding heading
heading-eq ver tail rest h =
    let e : ((ver ++ codes "]") ++ tail) ++ 10 ∷ rest ≡ (ver ++ codes "]") ++ (tail ++ 10 ∷ rest) =
      append_assoc (ver ++ codes "]") tail (10 ∷ rest) in
    rw
      (
        opening-eq (((ver ++ codes "]") ++ tail) ++ 10 ∷ rest),
        e,
        literal-with_v ver (tail ++ 10 ∷ rest),
        literal-append (ver ++ codes "]") (tail ++ 10 ∷ rest),
        after_line-eq tail rest h,
      )
      refl

-- The search passes over a line.
search-inside :
    (ver line rest : Bytes)
    → IsLine line
    → search_section ver false (line ++ 10 ∷ rest) ≡ search_section ver true rest
unfolding search_section
search-inside ver [] rest h = refl
search-inside ver (c ∷ line) rest (hc, h) = rw hc (search-inside ver line rest h)

search-line :
    (ver line rest : Bytes)
    → IsLine line
    → IsOther ver line
    → search_section ver true (line ++ 10 ∷ rest) ≡ search_section ver true rest
unfolding search_section
search-line ver [] rest h other = rw (other rest) refl
search-line ver (c ∷ line) rest (hc, h) other = rw (other rest, hc) (search-inside ver line rest h)

search-lines :
    (ver : Bytes) (before : List Bytes) (text : Bytes)
    → AreLines before
    → AreOther ver before
    → search_section ver true (lines_before before text) ≡ search_section ver true text
search-lines ver [] text h other = refl
search-lines ver (l ∷ before) text (hl, h) (here, other) =
    search-line ver l (lines_before before text) hl here ∙ search-lines ver before text h other

-- The body passes over a line.
body-line :
    (line rest : Bytes)
    → IsLine line
    → section_body (line ++ 10 ∷ rest)
      ≡ line ++ (if is_present (opening rest) then [] else 10 ∷ section_body rest)
unfolding section_body
body-line [] rest h = refl
body-line (c ∷ line) rest (hc, h) = rw hc (ap (λ l. c ∷ l) (body-line line rest h))

body-lines :
    (first : Bytes) (more : List Bytes) (next : Bytes)
    → IsLine first
    → AreLines more
    → AreInside more
    → is_present (opening next) ≡ true
    → section_body (lines_before (first ∷ more) next) ≡ join first more
body-lines first [] next hf hm inside stop = body-line first next hf ∙ rw stop (append-nil first)
body-lines first (m ∷ more) next hf (hm, h) (here, inside) stop =
    body-line first (lines_before (m ∷ more) next) hf
    ∙ rw (here (lines_before more next))
        (ap (λ l. first ++ 10 ∷ l) (body-lines m more next hm h inside stop))

search-heading :
    (ver tail rest : Bytes)
    → IsLine tail
    → search_section ver true (heading_line ver tail ++ 10 ∷ rest) ≡ some (section_body rest)
unfolding search_section
search-heading ver tail rest h = rw (heading-eq ver tail rest h) refl

lines_before-append :
    (xs ys : List Bytes) (text : Bytes)
    → lines_before (xs ++ ys) text ≡ lines_before xs (lines_before ys text)
lines_before-append [] ys text = refl
lines_before-append (l ∷ xs) ys text = ap (λ t. l ++ 10 ∷ t) (lines_before-append xs ys text)

module _ (ver tail : Bytes) (before : List Bytes) (first : Bytes) (more : List Bytes) (next : Bytes)
    (tail_line : IsLine tail) (before_lines : AreLines before) (other : AreOther ver before)
    (first_line : IsLine first) (more_lines : AreLines more) (inside : AreInside more)
    (stop : is_present (opening next) ≡ true) where
  -- Lines, the heading of the version, and the text up to the next section.
  abbrev pub changelog : Bytes
  changelog = lines_before (before ++ heading_line ver tail ∷ first ∷ more) next

  section_found :
      extract_changelog_section (some changelog) ver ≡ some (clean_body (join first more))
  unfolding extract_changelog_section
  section_found = ap cleaned (
      ap (search_section ver true)
        (lines_before-append before (heading_line ver tail ∷ first ∷ more) next)
      ∙ search-lines ver before _ before_lines other
      ∙ search-heading ver tail (lines_before (first ∷ more) next) tail_line
      ∙ ap some (body-lines first more next first_line more_lines inside stop))

  -- In a changelog of lines, of which none before the heading of the version is another heading of
  -- it, and where a section begins after it but not with one of the lines between, save the first,
  -- the notes for a tag of the version are all the lines between, without spaces and a rule at
  -- their ends, or the fallback if nothing is left of them; the changelog is said to have the
  -- section in both cases.
  pub release_notes_section :
      (raw_tag : Bytes) (component : NotesComponent)
      → parse_tag_info raw_tag ≡ (ver, component)
      → let title = title_of component ver in
        let notes = clean_body (join first more) in
        release_notes raw_tag (some changelog) ≡ record {
          title = title;
          semver = ver;
          component = component;
          has_changelog = true;
          notes_file =
              strip (if is_empty notes then fallback_notes title ver else notes) ++ codes "\n";
        }
  unfolding release_notes find_notes
  release_notes_section raw_tag component h = rw (h, section_found) refl
