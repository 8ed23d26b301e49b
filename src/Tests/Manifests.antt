-- ===== src/Tests/Manifests.antt =====
-- `get_manifest_versions` on manifests as the repository has them.
use usmp.Prelude.{◌≡◌, refl, none, some, []}
use usmp.Prelude.Texts.{codes}
use usmp.Release.{Versions, strip, strip_left, strip_right, starts_with}
use usmp.Release.Changelog.{literal, after_spaces}
use usmp.Release.Manifests.{
  Manifests, get_manifest_versions, declared, quoted_version, after_key, run, property_version,
  yaml_version, search_line, search, macro, core_version, rest_of_line, has_blank,
}

abbrev files : Manifests
files = record {
  pyproject = some (codes "[project]\nname = \"usmp\"\nversion = \"1.2.1\"\n");
  init = some (codes "\n__version__ = '1.2.1 '\n");
  library_properties = some (codes "name=usmp\nversion= 1.2.1 \nauthor=a\n");
  idf_component = some (codes "version: \"1.2.1\"\n");
  root_pyproject = some (codes "version = 1.2.1\n");
  usmp_h = some (
      codes
        "#define  USMP_VERSION_MAJOR 1\n#define USMP_VERSION_MINOR 2\n#define USMP_VERSION_PATCH\t10u\n");
}

abbrev read : Versions
read = record {
  python = some (codes "1.2.1");
  python_init = some (codes "1.2.1");
  arduino = some (codes "1.2.1");
  esp32 = some (codes "1.2.1");
  workspace = none;
  c_core = some (codes "1.2.10");
}

manifests_are_read : get_manifest_versions files ≡ read
unfolding get_manifest_versions declared quoted_version after_key run property_version yaml_version
    search_line search macro core_version rest_of_line has_blank strip strip_left strip_right
    starts_with literal after_spaces
manifests_are_read = refl

-- A line with blanks only declares the empty version.
blank_is_empty : property_version (codes "version =  ") ≡ some []
unfolding property_version rest_of_line has_blank strip strip_left strip_right starts_with literal
blank_is_empty = refl
