-- ===== src/Ports/Restore.antt =====
-- Cleaning after bundling.
use usmp.Prelude.{
  ◌≡◌, ◌≢◌, ◌&&◌, refl, ◌∙◌, sym, Bool, true, false, none, some, [], ◌∷◌, ◌++◌, Bytes, bytes_eq,
  Bool-cases, inl, inr,
}
use usmp.Prelude.Texts.{codes}
use usmp.Errors.{ok}
use usmp.Ports.{
  src_dir, core_dest, esp32_license, license_file, core_src, core_inc, usmp_api, arduino_shim,
  native_files, is_among, stage_arduino, zip_path, zip_arduino, archived,
}
use usmp.Ports.Commands.{
  Repository, zipped, bundle_arduino, with_arduino, is_under, rmtree, clean_arduino, clean_ports,
  Port, arduino, esp32, all_ports, bundle, main,
}
use usmp.Ports.Trees.{
  exists-write, exists-stage, exists-esp32, esp32-elsewhere, esp32-license, esp32_files,
  bundle_esp32-ok,
}
use usmp.Ports.Paths.{
  exists-read, FilePath, path_eq, eq_of_path_eq, Files, read, under, file_in, exists,
  read-remove_if, read-write, read-write_ne,
}
use usmp.Ports.Tidy.{
  api_path, IsTidy, IsRestorable, stage-elsewhere, stage-native, read-clean_arduino, restored,
}

-- The archive is written.
abbrev pub is_zipped : Port → Bool → Bool
is_zipped target create_zip = create_zip && with_arduino target

module _ (zip_bytes : Files → Bytes) where
  zipped-elsewhere :
      (create_zip : Bool) (p : FilePath) (fs : Files)
      → (create_zip && path_eq p (zip_path fs)) ≡ false
      → read p (zipped zip_bytes create_zip fs) ≡ read p fs
  unfolding zip_arduino
  zipped-elsewhere true p fs h = read-write_ne p (zip_path fs) (zip_bytes (archived fs)) fs h
  zipped-elsewhere false p fs h = refl

  zip-written :
      (create_zip : Bool) (fs : Files)
      → create_zip ≡ true
      → read (zip_path fs) (zipped zip_bytes create_zip fs) ≡ some (zip_bytes (archived fs))
  unfolding zip_arduino
  zip-written true fs h = read-write (zip_path fs) (zip_bytes (archived fs)) fs
  zip-written false fs h = cc

  exists-zipped :
      (create_zip : Bool) (dir : FilePath) (fs : Files)
      → exists dir fs ≡ true
      → exists dir (zipped zip_bytes create_zip fs) ≡ true
  unfolding zip_arduino
  exists-zipped true dir fs h = exists-write dir (zip_path fs) (zip_bytes (archived fs)) fs h
  exists-zipped false dir fs h = h

  -- The files once a target is bundled.
  abbrev bundled : Port → Bool → Files → Files
  bundled arduino create_zip fs = zipped zip_bytes create_zip (stage_arduino fs)
  bundled esp32 create_zip fs = esp32_files fs
  bundled all_ports create_zip fs = esp32_files (zipped zip_bytes create_zip (stage_arduino fs))

-- The archive is not in a port.
and_false : (b c : Bool) → c ≡ false → (b && c) ≡ false
and_false true c h = h
and_false false c h = refl

below_ports : (p : FilePath) (fs : Files) → path_eq (codes "ports" ∷ p) (zip_path fs) ≡ false
unfolding path_eq zip_path
below_ports p fs = refl

never : (b : Bool) → (b && false) ≢ true
never true h = cc
never false h = cc

module _ (fs : Files) (v : IsTidy fs) where
  src_there : exists src_dir fs ≡ true
  unfolding under
  src_there = exists-read src_dir api_path arduino_shim fs refl v.shim

  -- The ESP32 port, from files that agree with the tidy ones on the licences.
  esp32-kept :
      (now : Files) (p : FilePath)
      → read license_file now ≡ read license_file fs
      → read esp32_license now ≡ read esp32_license fs
      → under core_dest p ≡ none
      → read p (esp32_files now) ≡ read p now
  esp32-kept now p root port away = elim (Bool-cases (path_eq p esp32_license)) [
    | inl e ↦
        rw (eq_of_path_eq p esp32_license e)
          (esp32-license now (λ text h. port ∙ v.license text (sym root ∙ h)))
    | inr e ↦ esp32-elsewhere p now away e
  ]

  module _ (zip_bytes : Files → Bytes) (create_zip : Bool) where
    abbrev staged : Files
    staged = stage_arduino fs

    -- A path that is neither the archive's nor in the port's source directory.
    after_zip :
        (p : FilePath)
        → (create_zip && path_eq p (zip_path staged)) ≡ false
        → file_in src_dir p ≡ none
        → read p (zipped zip_bytes create_zip staged) ≡ read p fs
    after_zip p free outside =
        zipped-elsewhere zip_bytes create_zip p staged free ∙ stage-elsewhere p fs outside

    native-zip :
        (name : Bytes)
        → is_among name native_files ≡ true
        → bytes_eq name usmp_api ≡ false
        → read (src_dir ++ name ∷ []) (zipped zip_bytes create_zip staged)
          ≡ read (src_dir ++ name ∷ []) fs
    native-zip name native own =
        zipped-elsewhere zip_bytes create_zip (src_dir ++ name ∷ []) staged (
          and_false create_zip _
            (below_ports (codes "usmp-arduino" ∷ codes "src" ∷ name ∷ []) staged))
        ∙ stage-native name fs v native own

    root-zip : read license_file (zipped zip_bytes create_zip staged) ≡ read license_file fs
    unfolding path_eq zip_path under
    root-zip = after_zip license_file (and_false create_zip _ refl) refl

    port-zip : read esp32_license (zipped zip_bytes create_zip staged) ≡ read esp32_license fs
    unfolding under
    port-zip =
        after_zip esp32_license
          (and_false create_zip _ (below_ports (codes "usmp-esp32" ∷ codes "LICENSE" ∷ []) staged))
          refl

    -- The path of the archive, if it is written.
    abbrev pub is_archive : Port → FilePath → Bool
    is_archive target p = is_zipped target create_zip && path_eq p (zip_path staged)

    free_of : (b c : Bool) → ((b && true) && c) ≡ false → (b && c) ≡ false
    free_of true c h = h
    free_of false c h = refl

    bundled-IsRestorable :
        (target : Port)
        → IsRestorable (is_archive target) fs (bundled zip_bytes target create_zip fs)
    unfolding under
    bundled-IsRestorable arduino = record {
      there = exists-zipped zip_bytes create_zip src_dir staged (exists-stage src_dir fs src_there);
      elsewhere = λ p free outside away. after_zip p (free_of create_zip _ free) outside;
      native = native-zip;
    }
    bundled-IsRestorable esp32 = record {
      there = exists-esp32 fs src_there;
      elsewhere = λ p free outside away. esp32-kept fs p refl refl away;
      native = λ name native own. esp32-kept fs (src_dir ++ name ∷ []) refl refl refl;
    }
    bundled-IsRestorable all_ports =
        let zip : Files = zipped zip_bytes create_zip staged in
        record {
          there = exists-esp32 zip (
              exists-zipped zip_bytes create_zip src_dir staged
                (exists-stage src_dir fs src_there));
          elsewhere = λ p free outside away.
              esp32-kept zip p root-zip port-zip away
              ∙ after_zip p (free_of create_zip _ free) outside;
          native = λ name native own.
              esp32-kept zip (src_dir ++ name ∷ []) root-zip port-zip refl
              ∙ native-zip name native own;
        }

    true_of : (b : Bool) → (b && true) ≡ true → b ≡ true
    true_of true h = refl
    true_of false h = cc

    -- The archive is there once it is written.
    written :
        (target : Port)
        → is_zipped target create_zip ≡ true
        → read (zip_path staged) (bundled zip_bytes target create_zip fs)
          ≡ some (zip_bytes (archived staged))
    unfolding under zip_path
    written arduino h = zip-written zip_bytes create_zip staged (true_of create_zip h)
    written esp32 h = absurd (never create_zip h)
    written all_ports h =
        esp32-kept (zipped zip_bytes create_zip staged) (zip_path staged) root-zip port-zip refl
        ∙ zip-written zip_bytes create_zip staged (true_of create_zip h)

    -- Cleaning leaves it.
    archive-stays :
        (target : Port)
        → is_zipped target create_zip ≡ true
        → read
            (zip_path staged)
            (rmtree core_dest (clean_arduino (bundled zip_bytes target create_zip fs)))
          ≡ some (zip_bytes (archived staged))
    unfolding rmtree under path_eq zip_path
    archive-stays target h =
        let now : Files = bundled zip_bytes target create_zip fs in
        read-remove_if (is_under core_dest) (zip_path staged) (clean_arduino now)
        ∙ read-clean_arduino (zip_path staged) now (bundled-IsRestorable target).there
        ∙ written target h

module _ (zip_bytes : Files → Bytes) where
  bundle-ok :
      (target : Port) (create_zip : Bool) (r : Repository)
      → IsTidy r.files
      → bundle zip_bytes target create_zip r
        ≡ (ok tt, record { files = bundled zip_bytes target create_zip r.files })
  unfolding bundle bundle_arduino
  bundle-ok arduino create_zip r v = rw (src_there r.files v) refl
  bundle-ok esp32 create_zip r v = rw (bundle_esp32-ok r v.sources.0 v.sources.1) refl
  bundle-ok all_ports create_zip r v =
      let zip : Files = zipped zip_bytes create_zip (stage_arduino r.files) in
      rw
        (
          src_there r.files v,
          bundle_esp32-ok (record { files = zip })
              (exists-zipped zip_bytes create_zip core_src _
                (exists-stage core_src r.files v.sources.0))
              (exists-zipped zip_bytes create_zip core_inc _
                (exists-stage core_inc r.files v.sources.1)),
        )
        refl

  -- On a repository whose ports are tidy, with both source directories of the core, bundling any
  -- target, with an archive or not, ends with exit code 0, and cleaning afterwards leaves every
  -- path with the contents that it had before, but for the path of an archive that has been
  -- written, which keeps what `zipfile` made of the entries of the staged port.
  pub main_restores :
      (target : Port) (create_zip : Bool) (r : Repository)
      → IsTidy r.files
      → (out : Repository) × (main zip_bytes false (some target) create_zip r ≡ (ok 0, out))
        × ((p : FilePath)
            → (is_zipped target create_zip && path_eq p (zip_path (stage_arduino r.files))) ≡ false
            → read p (main zip_bytes true none false out).1.files ≡ read p r.files)
        × (is_zipped target create_zip ≡ true
            → read (zip_path (stage_arduino r.files)) (main zip_bytes true none false out).1.files
              ≡ some (zip_bytes (archived (stage_arduino r.files))))
  unfolding main clean_ports
  main_restores target create_zip r v =
      let now : Files = bundled zip_bytes target create_zip r.files in
      (
        record { files = now },
        rw (bundle-ok target create_zip r v) refl,
        λ p free.
            restored (is_archive r.files v zip_bytes create_zip target) r.files now v
              (bundled-IsRestorable r.files v zip_bytes create_zip target) p free,
        archive-stays r.files v zip_bytes create_zip target,
      )
