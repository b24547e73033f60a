-- ===== src/Manifest/Read.antt =====
-- internal/manifest/manifest.go: Get. The file system and the decoder of YAML are parameters.
use epinio.Base.{◌+◌, Bool, [], Option, none, some, if◌then◌else◌, Result, ok, err, bind, ltb, eqb}
use epinio.Text.{Text, codes}
use epinio.Paths.Absolute.{is_abs, abs, dir, join_paths}
use epinio.Manifest.{
  origin_none, origin_path, origin_git, origin_container, GitRef, ApplicationOrigin,
  ApplicationConfiguration, ApplicationManifest, ManifestError, filesystem, bad_yaml,
  too_many_origins,
}
use epinio.Manifest.Sources.{no_origin, counted, kind_of}

-- The working directory; whether a file exists; its content; and decoding it into a manifest.
pub record Files (E : Type 0) : Type 0 where
  pub wd : Result E Text
  pub exists : Text → Result E Bool
  pub read : Text → Result E Text
  pub unmarshal : Text → ApplicationManifest → Result E ApplicationManifest

abbrev pub wrapped :
    {E A : Type 0} → (E → ManifestError E) → Result E A → Result (ManifestError E) A
wrapped f (ok a) = ok a
wrapped f (err e) = err (f e)

abbrev pub no_configuration : ApplicationConfiguration
no_configuration = record {
  instances = none;
  configurations = [];
  environment = [];
  replace_env = none;
  services = [];
  routes = none;
  app_chart = [];
  settings = [];
  ignore = [];
}

abbrev pub default_origin : Text → ApplicationOrigin
default_origin file = record no_origin { kind = origin_path; path = dir file }

-- The base manifest, with an origin.
abbrev pub base_manifest : ApplicationOrigin → ApplicationManifest
base_manifest origin = record {
  name = [];
  configuration = no_configuration;
  self = codes "<<Defaults>>";
  origin = origin;
  staging = record { builder = [] };
  namespace = [];
}

abbrev pub git_url : Option GitRef → Text
git_url none = []
git_url (some ref) = ref.url

-- A relative path to the sources is relative to the directory of the file.
unfoldable pub located : Text → ApplicationOrigin → ApplicationOrigin
located file o = elim o.kind [
  | origin_path ↦ if is_abs o.path then o else record o { path = join_paths (dir file) o.path }
  | origin_none ↦ o
  | origin_git ↦ o
  | origin_container ↦ o
]

-- The kind of the origin that was read, of which there may be one at most.
unfoldable pub checked_origin :
    {E : Type 0} → Text → ApplicationOrigin → Result (ManifestError E) ApplicationOrigin
unfolding located
checked_origin file o =
    let origins = counted o.path + counted o.container + counted (git_url o.git) in
    if ltb 1 origins
    then err too_many_origins
    else if eqb origins 0
    then ok (located file (default_origin file))
    else ok (located file (record o { kind = kind_of o.path o.container (git_url o.git) }))

module _ {E : Type 0} (files : Files E) where
  -- A file that exists, by its absolute path.
  unfoldable pub decoded : Text → Result (ManifestError E) ApplicationManifest
  unfolding checked_origin
  decoded file = bind (wrapped filesystem (files.read file)) λ content.
      bind (wrapped bad_yaml (files.unmarshal content (base_manifest no_origin))) λ m.
        bind (checked_origin file m.origin) λ origin. ok (record m { self = file; origin = origin })

  -- `Get`
  unfoldable pub get : Text → Result (ManifestError E) ApplicationManifest
  unfolding decoded
  get path = bind (wrapped filesystem (abs files.wd path)) λ file.
      bind (wrapped filesystem (files.exists file))
        λ found. if found then decoded file else ok (base_manifest (default_origin file))
