-- ===== src/Manifest/Push.antt =====
-- internal/cli/cmd/apps.go: the manifest that `app push` sends to the server.
use epinio.Base.{Bool, List, [], ◌∷◌, Option, some, if◌then◌else◌, Result, ok, err, bind}
use epinio.Text.{Text, codes, elem}
use epinio.Text.Affix.{is_empty}
use epinio.Paths.Absolute.{join_paths}
use epinio.Manifest.{
  origin_none, origin_path, origin_git, origin_container, ApplicationOrigin, ApplicationManifest,
  Flags, ManifestError, filesystem, no_name,
}
use epinio.Manifest.Options.{update_ice, update_routes}
use epinio.Manifest.Sources.{update_basn}
use epinio.Manifest.Read.{Files, wrapped, get}

-- Without an origin the sources are in the working directory.
unfoldable pub completed_origin : Text → ApplicationOrigin → ApplicationOrigin
completed_origin wd o = elim o.kind [
  | origin_none ↦ record o { kind = origin_path; path = wd }
  | origin_path ↦ o
  | origin_git ↦ o
  | origin_container ↦ o
]

module _ {E : Type 0} (files : Files E) (stat : Text → Result E Bool) where
  -- The sources of a path have to be there.
  abbrev pub accessible : ApplicationOrigin → Result (ManifestError E) ApplicationOrigin
  accessible o = elim o.kind [
    | origin_path ↦ bind (wrapped filesystem (stat o.path)) λ there. ok o
    | origin_none ↦ ok o
    | origin_git ↦ ok o
    | origin_container ↦ ok o
  ]

  abbrev pub manifest_path : Text → List Text → Text
  manifest_path wd (path ∷ []) = path
  manifest_path wd [] = join_paths wd (codes "epinio.yml")
  manifest_path wd (path ∷ more ∷ args) = join_paths wd (codes "epinio.yml")

  abbrev replaced_env : List Text → Bool → Option Bool → Option Bool
  replaced_env visited env_replace old =
      if elem (codes "env-replace") visited then some env_replace else old

  -- The verification of the manifest with the options, and its completion.
  unfoldable pub verified_manifest :
      Flags E → Bool → Text → ApplicationManifest → Result (ManifestError E) ApplicationManifest
  unfolding completed_origin
  verified_manifest flags env_replace wd m =
      if is_empty m.name
      then err no_name
      else bind (accessible (completed_origin wd m.origin)) λ origin. ok (record m {
        origin = origin;
        configuration = record m.configuration {
          replace_env = replaced_env flags.visited env_replace m.configuration.replace_env;
        };
      })

  -- The command up to the request, from its arguments and options.
  unfoldable pub push_manifest :
      Flags E → Bool → List Text → Result (ManifestError E) ApplicationManifest
  unfolding get update_ice update_basn update_routes verified_manifest
  push_manifest flags env_replace args = bind (wrapped filesystem files.wd) λ wd.
      bind (get files (manifest_path wd args)) λ m. bind (update_ice flags m) λ m1.
        bind (update_basn files.wd flags m1)
          λ m2. bind (update_routes flags m2) λ m3. verified_manifest flags env_replace wd m3
