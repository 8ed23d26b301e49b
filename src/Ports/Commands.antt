-- ===== src/Ports/Commands.antt =====
-- The commands of scripts/bundle-ports.py: `bundle_arduino`, `bundle_esp32`, `clean_ports` and `main`.
use usmp.Prelude.{
  ℕ, Bool, true, false, not, ◌||◌, Option, none, some, List, [], ◌∷◌, ◌++◌, Bytes, if◌then◌else◌,
}
use usmp.Prelude.Dict.{is_present}
use usmp.Prelude.Texts.{codes}
use usmp.Errors.{Result, ok, err, runtime_error, os_error}
use usmp.Ports.{
  src_dir, core_dest, esp32_license, license_file, core_src, core_inc, usmp_api, arduino_shim,
  native_files, is_among, stage_arduino, write_all, zip_arduino,
}
use usmp.Ports.Paths.{FilePath, Files, read, write, under, file_in, exists, remove_if}

-- The repository.
pub record Repository : Type 0 where
  pub files : Files

-- How a command ends, and what it leaves.
abbrev pub Outcome : Type 0
Outcome = Result (Unit {0}) × Repository

abbrev pub then_run : Outcome → (Repository → Outcome) → Outcome
then_run (ok u, r) next = next r
then_run (err e, r) next = (err e, r)

-- The end of `bundle_arduino`.
abbrev pub zipped : (Files → Bytes) → Bool → Files → Files
zipped zip_bytes true fs = zip_arduino zip_bytes fs
zipped zip_bytes false fs = fs

unfoldable pub bundle_arduino : (Files → Bytes) → Bool → Repository → Outcome
bundle_arduino zip_bytes create_zip r =
    if not (exists src_dir r.files)
    then (err runtime_error, r)
    else (ok tt, record r { files = zipped zip_bytes create_zip (stage_arduino r.files) })

-- A name that `ignore_patterns("tests")` leaves out.
abbrev pub tests_name : Bytes
tests_name = codes "tests"

-- One of the names is ignored.
unfoldable pub has_ignored : List Bytes → FilePath → Bool
has_ignored ignored [] = false
has_ignored ignored (name ∷ rest) = is_among name ignored || has_ignored ignored rest

abbrev pub with_copy : FilePath → List Bytes → Bytes → Option FilePath → Files → Files
with_copy to ignored text none rest = rest
with_copy to ignored text (some below) rest =
    if has_ignored ignored below then rest else (to ++ below, text) ∷ rest

-- The copies of `copytree`, without the paths that an ignored name stands in.
unfoldable pub tree_copies : FilePath → FilePath → List Bytes → Files → Files
tree_copies from to ignored [] = []
tree_copies from to ignored ((p, text) ∷ files) =
    with_copy to ignored text (under from p) (tree_copies from to ignored files)

-- `copytree` of a directory that is not there raises an `OSError`.
unfoldable pub copy_directory : FilePath → FilePath → List Bytes → Repository → Outcome
copy_directory from to ignored r =
    if exists from r.files
    then (ok tt, record r { files = write_all (tree_copies from to ignored r.files) r.files })
    else (err os_error, r)

abbrev pub is_under : FilePath → FilePath → Bool
is_under dir p = is_present (under dir p)

-- `rmtree`.
unfoldable pub rmtree : FilePath → Files → Files
rmtree dir fs = remove_if (is_under dir) fs

abbrev pub copy_file : FilePath → Option Bytes → Files → Files
copy_file to none fs = fs
copy_file to (some text) fs = write to text fs

unfoldable pub bundle_esp32 : Repository → Outcome
bundle_esp32 r =
    then_run
      (copy_directory core_src (core_dest ++ codes "src" ∷ []) (tests_name ∷ [])
        (record r { files = rmtree core_dest r.files }))
      (λ r1. then_run (copy_directory core_inc (core_dest ++ codes "include" ∷ []) [] r1) (λ r2. (
        ok tt,
        record r2 { files = copy_file esp32_license (read license_file r2.files) r2.files },
      )))

-- A file that `clean_ports` removes from the Arduino port.
abbrev pub is_stray : Option Bytes → Bool
is_stray none = false
is_stray (some name) = not (is_among name native_files)

-- Step 1 of `clean_ports`.
unfoldable pub clean_arduino : Files → Files
clean_arduino fs =
    if exists src_dir fs
    then write (src_dir ++ usmp_api ∷ []) arduino_shim
        (remove_if (λ p. is_stray (file_in src_dir p)) fs)
    else fs

unfoldable pub clean_ports : Repository → Repository
clean_ports r = record r { files = rmtree core_dest (clean_arduino r.files) }

-- `--target`.
pub data Port : Type 0 where
  arduino esp32 all_ports : Port

abbrev pub with_arduino : Port → Bool
with_arduino esp32 = false
with_arduino _ = true

abbrev pub with_esp32 : Port → Bool
with_esp32 arduino = false
with_esp32 _ = true

abbrev pub exit_code : ℕ → Outcome → Result ℕ × Repository
exit_code n (ok u, r) = (ok n, r)
exit_code n (err e, r) = (err e, r)

module _ (zip_bytes : Files → Bytes) where
  -- The two bundles that a target asks for.
  unfoldable pub bundle : Port → Bool → Repository → Outcome
  bundle target create_zip r =
      then_run (if with_arduino target then bundle_arduino zip_bytes create_zip r else (ok tt, r))
        (λ r1. if with_esp32 target then bundle_esp32 r1 else (ok tt, r1))

  abbrev pub run_target : Option Port → Bool → Repository → Result ℕ × Repository
  run_target none create_zip r = (ok 1, r)
  run_target (some target) create_zip r = exit_code 0 (bundle target create_zip r)

  -- `main`, of its arguments: the exit code or the exception.
  unfoldable pub main : Bool → Option Port → Bool → Repository → Result ℕ × Repository
  main clean target create_zip r =
      if clean then (ok 0, clean_ports r) else run_target target create_zip r
