-- ===== src/Release/Validation.antt =====
-- When `validate_tag` lets a tag through.
use usmp.Prelude.{
  ℕ, ◌≡◌, ◌∙◌, refl, sym, ap, Bool, true, false, ◌||◌, Option, none, some, List, [], ◌∷◌, ◌++◌,
  Bytes, bytes_eq, bytes_eq_refl, eq_of_bytes_eq, arith, if◌then◌else◌, Bool-cases, inl, inr,
}
use usmp.Errors.{Error, Result, ok, err, ◌>>=◌, value_error, is_value_error}
use usmp.Release.{
  is_empty, is_tail, digits_then, dot_then, is_semver, letter_v, removeprefix, strip, Target, Tag,
  target_of, is_for_all, checked_tag, parse_tag, Versions, before_dash, Problem, check_version,
  when, problems, has_problems, validate_parsed, validate_tag,
}

-- The manifests that a tag asks for declare its version, and the C core the version without its suffix.
pub record Declares (versions : Versions) (tag : Tag) : Type 0 where
  pub python :
      tag.for_python ≡ true
      → (versions.python ≡ some tag.semver) × (versions.python_init ≡ some tag.semver)
  pub arduino : tag.for_arduino ≡ true → versions.arduino ≡ some tag.semver
  pub esp32 : tag.for_esp32 ≡ true → versions.esp32 ≡ some tag.semver
  pub all :
      is_for_all tag.target ≡ true
      → (versions.workspace ≡ some tag.semver) × (versions.c_core ≡ some (before_dash tag.semver))

check-declared :
    (o : Option Bytes) (expected : Bytes)
    → has_problems (check_version o expected) ≡ false
    → o ≡ some expected
unfolding check_version
check-declared none expected h = cc
check-declared (some []) expected h = cc
check-declared (some (x ∷ xs)) expected h = elim (Bool-cases (bytes_eq (x ∷ xs) expected)) [
  | inl e ↦ ap some (eq_of_bytes_eq (x ∷ xs) expected e)
  | inr e ↦ ground (arith, e, h)
]

declared-check :
    (o : Option Bytes) (expected : Bytes)
    → is_empty expected ≡ false
    → o ≡ some expected
    → check_version o expected ≡ []
unfolding check_version
declared-check o expected h e = rw (e, h, bytes_eq_refl expected) refl

has_problems-append :
    (xs ys : List Problem) → has_problems (xs ++ ys) ≡ (has_problems xs || has_problems ys)
has_problems-append [] ys = refl
has_problems-append (x ∷ xs) ys = refl

neither : (p q : Bool) → (p || q) ≡ false → (p ≡ false) × (q ≡ false)
neither p q h = ground arith

semver_begins :
    (next : Bytes → Bool) (text : Bytes)
    → digits_then next text ≡ true
    → (is_empty text ≡ false) × (is_empty (before_dash text) ≡ false)
unfolding digits_then before_dash
semver_begins next [] h = cc
semver_begins next (c ∷ cs) h = (refl, ground arith)

when-none :
    (flag : Bool) (ps : List Problem)
    → has_problems (when flag ps) ≡ false
    → flag ≡ true
    → has_problems ps ≡ false
when-none flag ps h e = rw e at h

none-when : (flag : Bool) (ps : List Problem) → (flag ≡ true → ps ≡ []) → when flag ps ≡ []
none-when flag ps h = elim (Bool-cases flag) [ inl e ↦ rw e (h e) | inr e ↦ rw e refl ]

-- Two versions that a flag asks for.
both-declared :
    (flag : Bool) (a b : Option Bytes) (x y : Bytes)
    → has_problems (when flag (check_version a x ++ check_version b y)) ≡ false
    → flag ≡ true
    → (a ≡ some x) × (b ≡ some y)
both-declared flag a b x y h e =
    let (first, second) =
      neither (has_problems (check_version a x)) (has_problems (check_version b y)) (
        sym (has_problems-append (check_version a x) (check_version b y))
        ∙ when-none flag (check_version a x ++ check_version b y) h e) in
    (check-declared a x first, check-declared b y second)

module _ (versions : Versions) (tag : Tag) where
  abbrev v : Bytes
  v = tag.semver

  abbrev python_problems : List Problem
  python_problems =
      when tag.for_python (check_version versions.python v ++ check_version versions.python_init v)

  abbrev arduino_problems : List Problem
  arduino_problems = when tag.for_arduino (check_version versions.arduino v)

  abbrev esp32_problems : List Problem
  esp32_problems = when tag.for_esp32 (check_version versions.esp32 v)

  abbrev all_problems : List Problem
  all_problems =
      when (is_for_all tag.target)
        (check_version versions.workspace v ++ check_version versions.c_core (before_dash v))

  problems-Declares : has_problems (problems versions tag) ≡ false → Declares versions tag
  unfolding problems
  problems-Declares h =
      let (p, r1) =
        neither (has_problems python_problems)
          (has_problems (arduino_problems ++ (esp32_problems ++ all_problems)))
          (sym (
              has_problems-append python_problems
                (arduino_problems ++ (esp32_problems ++ all_problems)))
            ∙ h) in
      let (a, r2) =
        neither (has_problems arduino_problems) (has_problems (esp32_problems ++ all_problems))
          (sym (has_problems-append arduino_problems (esp32_problems ++ all_problems)) ∙ r1) in
      let (e, l) =
        neither (has_problems esp32_problems) (has_problems all_problems)
          (sym (has_problems-append esp32_problems all_problems) ∙ r2) in
      record {
        python = both-declared tag.for_python versions.python versions.python_init v v p;
        arduino = λ f.
            check-declared versions.arduino v
              (when-none tag.for_arduino (check_version versions.arduino v) a f);
        esp32 = λ f.
            check-declared versions.esp32 v
              (when-none tag.for_esp32 (check_version versions.esp32 v) e f);
        all =
            both-declared (is_for_all tag.target) versions.workspace versions.c_core v
              (before_dash v) l;
      }

  Declares-problems :
      is_empty v ≡ false
      → is_empty (before_dash v) ≡ false
      → Declares versions tag
      → problems versions tag ≡ []
  unfolding problems
  Declares-problems hv hb d =
      let python : python_problems ≡ [] =
        none-when tag.for_python
          (check_version versions.python v ++ check_version versions.python_init v)
          (λ f.
            rw
              (
                declared-check versions.python v hv (d.python f).0,
                declared-check versions.python_init v hv (d.python f).1,
              )
              refl) in
      let arduino : arduino_problems ≡ [] =
        none-when tag.for_arduino (check_version versions.arduino v)
          (λ f. declared-check versions.arduino v hv (d.arduino f)) in
      let esp32 : esp32_problems ≡ [] =
        none-when tag.for_esp32 (check_version versions.esp32 v)
          (λ f. declared-check versions.esp32 v hv (d.esp32 f)) in
      let all : all_problems ≡ [] =
        none-when (is_for_all tag.target)
          (check_version versions.workspace v ++ check_version versions.c_core (before_dash v))
          (λ f.
            rw
              (
                declared-check versions.workspace v hv (d.all f).0,
                declared-check versions.c_core (before_dash v) hb (d.all f).1,
              )
              refl) in
      rw (python, arduino, esp32, all) refl

abbrev semver_of : Result Tag → Bytes
semver_of (ok tag) = tag.semver
semver_of (err e) = []

checked-semver :
    (p : Target × Bytes) (tag : Tag) → checked_tag p ≡ ok tag → is_semver tag.semver ≡ true
checked-semver (target, clean_tag) tag h =
    let semver : Bytes = removeprefix letter_v clean_tag in
    elim (Bool-cases (is_semver semver)) [
      | inl e ↦ let same : semver ≡ tag.semver = ap semver_of (rw e at h) in rw (← same) e
      | inr e ↦ let bad : err value_error ≡ ok tag = rw e at h in cc
    ]

parsed-semver :
    (r : Result (Target × Bytes)) (tag : Tag)
    → (r >>= checked_tag) ≡ ok tag
    → is_semver tag.semver ≡ true
parsed-semver (err e) tag h = cc
parsed-semver (ok p) tag h = checked-semver p tag h

parse_tag-semver :
    (raw_tag : Bytes) (tag : Tag)
    → parse_tag raw_tag ≡ ok tag
    → (is_empty tag.semver ≡ false) × (is_empty (before_dash tag.semver) ≡ false)
unfolding parse_tag is_semver
parse_tag-semver raw_tag tag h =
    semver_begins (dot_then (digits_then (dot_then (digits_then is_tail)))) tag.semver
      (parsed-semver (target_of (strip raw_tag)) tag h)

-- The exit code, and 1 for an exception.
abbrev exit_code : Result ℕ → ℕ
exit_code (ok n) = n
exit_code (err e) = 1

if_code : (b : Bool) (e : Error) → exit_code (if b then ok 1 else err e) ≡ 1
if_code true e = refl
if_code false e = refl

passes-Declares :
    (versions : Versions) (r : Result Tag)
    → validate_parsed versions none r ≡ ok 0
    → (tag : Tag) × (r ≡ ok tag) × Declares versions tag
passes-Declares versions (err e) h =
    absurd (omega (arith, ap exit_code h, if_code (is_value_error e) e))
passes-Declares versions (ok tag) h = elim (Bool-cases (has_problems (problems versions tag))) [
  | inl e ↦ let bad : ok 1 ≡ ok 0 = rw e at h in absurd (omega (arith, ap exit_code bad))
  | inr e ↦ (tag, refl, problems-Declares versions tag e)
]

-- Without outputs to write, `validate_tag` ends with exit code 0 exactly when the tag parses and
-- every manifest that it asks for declares its version, and the C core, for a tag of all, the
-- version before the first dash.
pub validate_tag_passes :
    (versions : Versions) (raw_tag : Bytes)
    → (validate_tag versions none raw_tag ≡ ok 0
        → (tag : Tag) × (parse_tag raw_tag ≡ ok tag) × Declares versions tag)
      × ((tag : Tag)
          → parse_tag raw_tag ≡ ok tag
          → Declares versions tag
          → validate_tag versions none raw_tag ≡ ok 0)
unfolding validate_tag
validate_tag_passes versions raw_tag = (
  λ h. passes-Declares versions (parse_tag raw_tag) h,
  λ tag h d.
      let (whole, base) = parse_tag-semver raw_tag tag h in
      rw (h, Declares-problems versions tag whole base d) refl,
)
