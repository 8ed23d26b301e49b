-- ===== src/Ports/Trees.antt =====
-- Directories that are there, and the copy of a tree, in scripts/bundle-ports.py.
use usmp.Prelude.{
  ◌≡◌, refl, ap, ◌∙◌, sym, Bool, true, false, ◌||◌, Option, none, some, List, [], ◌∷◌, ◌++◌, Bytes,
  bytes_eq, Bool-cases, Option-cases, inl, inr, arith,
}
use usmp.Prelude.Dict.{get, put}
use usmp.Prelude.Texts.{codes}
use usmp.Errors.{ok}
use usmp.Ports.{
  src_dir, core_dest, esp32_license, license_file, core_src, core_inc, write_all, stage_arduino,
  patch_staged,
}
use usmp.Ports.Commands.{
  Repository, tests_name, tree_copies, copy_directory, is_under, rmtree, copy_file, bundle_esp32,
}
use usmp.Ports.Copies.{read-write_all}
use usmp.Ports.Paths.{
  FilePath, path_eq, eq_of_path_eq, Files, read, write, under, exists, remove_if, under-append,
  under-eq, read-remove_if, read-write, read-write_ne,
}

pub exists-write :
    (dir p : FilePath) (text : Bytes) (fs : Files)
    → exists dir fs ≡ true
    → exists dir (write p text fs) ≡ true
unfolding exists put
exists-write dir p text [] h = cc
exists-write dir p text ((q, w) ∷ rest) h = elim (Bool-cases (path_eq p q)) [
  | inl e ↦ rw e h
  | inr e ↦ rw e (ground (arith, h, exists-write dir p text rest))
]

pub exists-write_all :
    (dir : FilePath) (copies fs : Files)
    → exists dir fs ≡ true
    → exists dir (write_all copies fs) ≡ true
unfolding write_all
exists-write_all dir [] fs h = h
exists-write_all dir ((p, text) ∷ rest) fs h =
    exists-write_all dir rest (write p text fs) (exists-write dir p text fs h)

exists-patch_staged : (dir : FilePath) (fs : Files) → exists dir (patch_staged fs) ≡ exists dir fs
unfolding exists patch_staged
exists-patch_staged dir [] = refl
exists-patch_staged dir ((p, text) ∷ rest) =
    ap (λ b. is_under dir p || b) (exists-patch_staged dir rest)

pub exists-stage :
    (dir : FilePath) (fs : Files) → exists dir fs ≡ true → exists dir (stage_arduino fs) ≡ true
unfolding stage_arduino
exists-stage dir fs h =
    exists-patch_staged dir _ ∙ exists-write_all dir _ _ (exists-write_all dir _ fs h)

-- A directory outlives the removal of files that are not in it.
exists-remove_if :
    (dir : FilePath) (test : FilePath → Bool) (fs : Files)
    → ((p below : FilePath) → under dir p ≡ some below → test p ≡ false)
    → exists dir fs ≡ true
    → exists dir (remove_if test fs) ≡ true
unfolding exists remove_if
exists-remove_if dir test [] apart h = cc
exists-remove_if dir test ((p, text) ∷ rest) apart h = elim (Option-cases (under dir p)) [
  | inl away ↦
      let later : exists dir (remove_if test rest) ≡ true =
        exists-remove_if dir test rest apart (rw away at h) in
      elim (Bool-cases (test p)) [ inl goes ↦ rw goes later | inr stays ↦ rw (stays, away) later ]
  | inr (below, there) ↦ rw (apart p below there, there) refl
]

-- The core's directories outlive the removal of the bundled ones.
pub exists-rmtree_src :
    (fs : Files) → exists core_src fs ≡ true → exists core_src (rmtree core_dest fs) ≡ true
unfolding rmtree under
exists-rmtree_src fs h =
    exists-remove_if core_src (is_under core_dest) fs
      (λ p below e. rw (under-eq core_src p below e) refl) h

pub exists-rmtree_inc :
    (fs : Files) → exists core_inc fs ≡ true → exists core_inc (rmtree core_dest fs) ≡ true
unfolding rmtree under
exists-rmtree_inc fs h =
    exists-remove_if core_inc (is_under core_dest) fs
      (λ p below e. rw (under-eq core_inc p below e) refl) h

-- What is not in a directory is not further down in it.
under_further : (dir more p : FilePath) → under dir p ≡ none → under (dir ++ more) p ≡ none
unfolding under
under_further [] more p h = cc
under_further (d ∷ dir) more [] h = refl
under_further (d ∷ dir) more (n ∷ p) h = elim (Bool-cases (bytes_eq d n)) [
  | inl e ↦ rw e (under_further dir more p (rw e at h))
  | inr e ↦ rw e refl
]

other_tree : (to below p : FilePath) → under to p ≡ none → path_eq p (to ++ below) ≡ false
other_tree to below p h = elim (Bool-cases (path_eq p (to ++ below))) [
  | inl e ↦
      let there : under to p ≡ some below =
        rw (eq_of_path_eq p (to ++ below) e) (under-append to below) in
      let both : none ≡ some below = sym h ∙ there in cc
  | inr e ↦ e
]

tree_copies-elsewhere :
    (from to : FilePath) (ignored : List Bytes) (p : FilePath) (files : Files)
    → under to p ≡ none
    → read p (tree_copies from to ignored files) ≡ none
unfolding tree_copies get
tree_copies-elsewhere from to ignored p [] h = refl
tree_copies-elsewhere from to ignored p ((q, text) ∷ rest) h = elim (Option-cases (under from q)) [
  | inl away ↦ rw away (tree_copies-elsewhere from to ignored p rest h)
  | inr (below, there) ↦
      rw there
        (ground (arith, tree_copies-elsewhere from to ignored p rest h, other_tree to below p h))
]

-- The files once the ESP32 port is bundled.
abbrev pub with_src : Files → Files
with_src fs =
    write_all (tree_copies core_src (core_dest ++ codes "src" ∷ []) (tests_name ∷ []) fs) fs

abbrev pub with_inc : Files → Files
with_inc fs = write_all (tree_copies core_inc (core_dest ++ codes "include" ∷ []) [] fs) fs

abbrev pub with_license : Files → Files
with_license fs = copy_file esp32_license (read license_file fs) fs

abbrev pub esp32_files : Files → Files
esp32_files fs = with_license (with_inc (with_src (rmtree core_dest fs)))

pub bundle_esp32-ok :
    (r : Repository)
    → exists core_src r.files ≡ true
    → exists core_inc r.files ≡ true
    → bundle_esp32 r ≡ (ok tt, record r { files = esp32_files r.files })
unfolding bundle_esp32 copy_directory
bundle_esp32-ok r hs hi =
    let src_there : exists core_src (rmtree core_dest r.files) ≡ true =
      exists-rmtree_src r.files hs in
    let inc_there : exists core_inc (with_src (rmtree core_dest r.files)) ≡ true =
      exists-write_all core_inc _ _ (exists-rmtree_inc r.files hi) in
    rw (src_there, inc_there) refl

read-license :
    (p : FilePath) (fs : Files) (o : Option Bytes)
    → path_eq p esp32_license ≡ false
    → read p (copy_file esp32_license o fs) ≡ read p fs
read-license p fs none h = refl
read-license p fs (some text) h = read-write_ne p esp32_license text fs h

copies-elsewhere :
    (p : FilePath) (fs : Files)
    → under core_dest p ≡ none
    → read p (with_inc (with_src (rmtree core_dest fs))) ≡ read p fs
unfolding rmtree
copies-elsewhere p fs h =
    read-write_all p _ _ (
      tree_copies-elsewhere core_inc (core_dest ++ codes "include" ∷ []) [] p _
        (under_further core_dest (codes "include" ∷ []) p h))
    ∙ read-write_all p _ _ (
        tree_copies-elsewhere core_src (core_dest ++ codes "src" ∷ []) (tests_name ∷ []) p _
          (under_further core_dest (codes "src" ∷ []) p h))
    ∙ read-remove_if (is_under core_dest) p fs
    ∙ rw h refl

-- It leaves every path but those under its directory and that of the licence.
pub esp32-elsewhere :
    (p : FilePath) (fs : Files)
    → under core_dest p ≡ none
    → path_eq p esp32_license ≡ false
    → read p (esp32_files fs) ≡ read p fs
esp32-elsewhere p fs h other = read-license p _ _ other ∙ copies-elsewhere p fs h

exists-license :
    (dir : FilePath) (o : Option Bytes) (fs : Files)
    → exists dir fs ≡ true
    → exists dir (copy_file esp32_license o fs) ≡ true
exists-license dir none fs h = h
exists-license dir (some text) fs h = exists-write dir esp32_license text fs h

-- The Arduino port's sources are not under what it removes.
pub exists-esp32 : (fs : Files) → exists src_dir fs ≡ true → exists src_dir (esp32_files fs) ≡ true
unfolding rmtree under
exists-esp32 fs h = exists-license src_dir _ _ (
    exists-write_all src_dir _ _ (
      exists-write_all src_dir _ _ (
        exists-remove_if src_dir (is_under core_dest) fs
          (λ p below e. rw (under-eq src_dir p below e) refl) h)))

copied_license :
    (o : Option Bytes) (fs : Files)
    → ((text : Bytes) → o ≡ some text → read esp32_license fs ≡ some text)
    → read esp32_license (copy_file esp32_license o fs) ≡ read esp32_license fs
copied_license none fs same = refl
copied_license (some text) fs same = read-write esp32_license text fs ∙ sym (same text refl)

-- The licence in the port is the repository's already.
pub esp32-license :
    (fs : Files)
    → ((text : Bytes) → read license_file fs ≡ some text → read esp32_license fs ≡ some text)
    → read esp32_license (esp32_files fs) ≡ read esp32_license fs
unfolding under
esp32-license fs same =
    let there : read esp32_license (with_inc (with_src (rmtree core_dest fs)))
        ≡ read esp32_license fs =
      copies-elsewhere esp32_license fs refl in
    let root : read license_file (with_inc (with_src (rmtree core_dest fs)))
        ≡ read license_file fs =
      copies-elsewhere license_file fs refl in
    copied_license _ _ (λ text e. there ∙ same text (sym root ∙ e)) ∙ there
