-- ===== src/Release/Manifests/Declared.antt =====
-- The search for the line that declares a version.
use usmp.Prelude.{
  ℕ, ◌≡◌, refl, Bool, true, false, not, ◌&&◌, Option, none, some, [], ◌∷◌, ◌++◌, Bytes, ◌==◌,
  if◌then◌else◌, Bool-cases, inl, inr,
}
use usmp.Prelude.Texts.{codes}
use usmp.Release.{is_empty, strip, strip_left, starts_with}
use usmp.Release.Changelog.{literal}
use usmp.Release.Manifests.{is_quote, run, after_key, quoted_version, search_line, declared}

-- No line of a text begins with the letter, by whether a line begins here.
unfoldable lines_avoid : ℕ → Bool → Bytes → Bool
lines_avoid letter begins [] = true
lines_avoid letter begins (c ∷ cs) =
    not (begins && (c == letter)) && lines_avoid letter (c == 10) cs

unfoldable has_quote : Bytes → Bool
has_quote [] = false
has_quote (c ∷ cs) = if is_quote c then true else has_quote cs

module _ (pattern : Bytes → Option Bytes) (letter : ℕ) (visible : (10 == letter) ≡ false)
    (misses : (c : ℕ) (cs : Bytes) → (c == letter) ≡ false → pattern (c ∷ cs) ≡ none) where
  skip_lines :
      (before text : Bytes) (begins : Bool)
      → lines_avoid letter begins before ≡ true
      → search_line pattern begins (before ++ 10 ∷ text) ≡ search_line pattern true text
  unfolding search_line lines_avoid
  skip_lines [] text true h = rw (misses 10 text visible) refl
  skip_lines [] text false h = refl
  skip_lines (c ∷ cs) text false h = skip_lines cs text (c == 10) h
  skip_lines (c ∷ cs) text true h = elim (Bool-cases (c == letter)) [
    | inl e ↦ let bad : false ≡ true = rw e at h in cc
    | inr e ↦ rw (misses c (cs ++ 10 ∷ text) e) (skip_lines cs text (c == 10) (rw e at h))
  ]

run-quote :
    (version rest : Bytes)
    → has_quote version ≡ false
    → run (λ c. not (is_quote c)) (version ++ 0x22 ∷ rest) ≡ (version, 0x22 ∷ rest)
unfolding run has_quote
run-quote [] rest h = refl
run-quote (c ∷ cs) rest h = elim (Bool-cases (is_quote c)) [
  | inl e ↦ let bad : true ≡ false = rw e at h in cc
  | inr e ↦ let more : has_quote cs ≡ false = rw e at h in rw (e, run-quote cs rest more) refl
]

other_letter :
    (c : ℕ) (cs : Bytes) → (c == 0x76) ≡ false → quoted_version (codes "version") (c ∷ cs) ≡ none
unfolding quoted_version after_key literal starts_with
other_letter c cs h = rw h refl

quoted_line :
    (version rest : Bytes)
    → is_empty version ≡ false
    → has_quote version ≡ false
    → quoted_version (codes "version") (codes "version = \"" ++ (version ++ 0x22 ∷ rest))
      ≡ some version
unfolding quoted_version after_key literal starts_with strip_left
quoted_line version rest filled plain = rw (run-quote version rest plain, filled) refl

-- The first line that begins with `v` gives the version when it reads `version = "..."`.
declared_line :
    (before version rest : Bytes)
    → lines_avoid 0x76 true before ≡ true
    → is_empty version ≡ false
    → has_quote version ≡ false
    → declared
        (codes "version")
        (some (before ++ 10 ∷ (codes "version = \"" ++ (version ++ 0x22 ∷ rest))))
      ≡ some (strip version)
unfolding declared search_line
declared_line before version rest above filled plain =
    rw
      (
        skip_lines (quoted_version (codes "version")) 0x76 refl other_letter before
            (codes "version = \"" ++ (version ++ 0x22 ∷ rest)) true above,
        quoted_line version rest filled plain,
      )
      refl
