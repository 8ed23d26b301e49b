-- ===== src/Release/Notes.antt =====
-- How each of the two scripts reads a release tag.
use mathlib.Core.List.{append_assoc}
use usmp.Prelude.{
  ◌≡◌, ◌∙◌, refl, sym, ap, true, [], ◌++◌, Bytes, eq_of_bytes_eq, length, take, drop, Bool-cases,
  inl, inr, take-append-drop, take-append, drop-append, bytes_eq_refl,
}
use usmp.Errors.{Result, ok, err, ◌>>=◌, value_error}
use usmp.Release.{
  starts_with, removeprefix, strip, python_dash, arduino_dash, esp_dash, letter_v, is_semver,
  Target, Tag, target_of, checked_tag, parse_tag, NotesComponent, python_notes, arduino_notes,
  esp32_notes, core_notes, tag_info, parse_tag_info,
}

-- The component of a target.
abbrev pub notes_of : Target → NotesComponent
notes_of Target.python = python_notes
notes_of Target.arduino = arduino_notes
notes_of Target.esp32 = esp32_notes
notes_of Target.all = core_notes

removeprefix-append : (p rest : Bytes) → removeprefix p (p ++ rest) ≡ rest
unfolding removeprefix starts_with
removeprefix-append p rest =
    rw (take-append p rest (length p) refl, bytes_eq_refl p, drop-append p rest (length p) refl)
      refl

starts_with-eq : (p text : Bytes) → starts_with p text ≡ true → text ≡ p ++ drop (length p) text
unfolding starts_with
starts_with-eq p text h =
    sym (take-append-drop (length p) text)
    ∙ ap (λ l. l ++ drop (length p) text) (eq_of_bytes_eq (take (length p) text) p h)

-- Two prefixes one after the other, or both at once.
removeprefix-twice :
    (p q text : Bytes)
    → starts_with (p ++ q) text ≡ true
    → removeprefix q (removeprefix p text) ≡ removeprefix (p ++ q) text
removeprefix-twice p q text h =
    let rest : Bytes = drop (length (p ++ q)) text in
    let split : text ≡ (p ++ q) ++ rest = starts_with-eq (p ++ q) text h in
    let whole : text ≡ p ++ (q ++ rest) = split ∙ append_assoc p q rest in
    ap (λ t. removeprefix q (removeprefix p t)) whole
    ∙ ap (removeprefix q) (removeprefix-append p (q ++ rest))
    ∙ removeprefix-append q rest
    ∙ sym (removeprefix-append (p ++ q) rest)
    ∙ ap (removeprefix (p ++ q)) (sym split)

abbrev parts : Result Tag → Target × Bytes
parts (ok tag) = (tag.target, tag.semver)
parts (err e) = (Target.all, [])

checked_parts :
    (p : Target × Bytes) (tag : Tag)
    → checked_tag p ≡ ok tag
    → ◌≡◌ {A = Target × Bytes} (p.0, removeprefix letter_v p.1) (tag.target, tag.semver)
checked_parts (target, clean_tag) tag h =
    elim (Bool-cases (is_semver (removeprefix letter_v clean_tag))) [
      | inl e ↦ ap parts (rw e at h)
      | inr e ↦ let bad : err value_error ≡ ok tag = rw e at h in cc
    ]

-- A tag of one of the four kinds.
found :
    (target : Target) (clean_tag semver : Bytes) (tag : Tag)
    → removeprefix letter_v clean_tag ≡ semver
    → checked_tag (target, clean_tag) ≡ ok tag
    → ◌≡◌ {A = Bytes × NotesComponent} (semver, notes_of target) (tag.semver, notes_of tag.target)
found target clean_tag semver tag e h =
    ap (λ s. (s, notes_of target)) (sym e)
    ∙ ap (λ x. (x.1, notes_of x.0)) (checked_parts (target, clean_tag) tag h)

target_parts :
    (text : Bytes) (tag : Tag)
    → (target_of text >>= checked_tag) ≡ ok tag
    → tag_info text ≡ (tag.semver, notes_of tag.target)
unfolding target_of tag_info
target_parts text tag h = elim (Bool-cases (starts_with (python_dash ++ letter_v) text)) [
  | inl e ↦ rw e (
      found Target.python (removeprefix python_dash text)
        (removeprefix (python_dash ++ letter_v) text) tag
        (removeprefix-twice python_dash letter_v text e) (rw e at h))
  | inr e1 ↦ elim (Bool-cases (starts_with (arduino_dash ++ letter_v) text)) [
    | inl e ↦
        rw (e1, e)
          (found Target.arduino (removeprefix arduino_dash text)
            (removeprefix (arduino_dash ++ letter_v) text) tag
            (removeprefix-twice arduino_dash letter_v text e) (rw (e1, e) at h))
    | inr e2 ↦ elim (Bool-cases (starts_with (esp_dash ++ letter_v) text)) [
      | inl e ↦
          rw (e1, e2, e)
            (found Target.esp32 (removeprefix esp_dash text)
              (removeprefix (esp_dash ++ letter_v) text) tag
              (removeprefix-twice esp_dash letter_v text e) (rw (e1, e2, e) at h))
      | inr e3 ↦ elim (Bool-cases (starts_with letter_v text)) [
        | inl e ↦
            rw (e1, e2, e3, e)
              (found Target.all text (removeprefix letter_v text) tag refl
                (rw (e1, e2, e3, e) at h))
        | inr e4 ↦ let bad : err value_error ≡ ok tag = rw (e1, e2, e3, e4) at h in cc
      ]
    ]
  ]
]

-- For a tag that `parse_tag` takes, `parse_tag_info` gives the same version and the component of
-- its target.
pub parse_tag-parse_tag_info :
    (raw_tag : Bytes) (tag : Tag)
    → parse_tag raw_tag ≡ ok tag
    → parse_tag_info raw_tag ≡ (tag.semver, notes_of tag.target)
unfolding parse_tag parse_tag_info
parse_tag-parse_tag_info raw_tag tag h = target_parts (strip raw_tag) tag h
