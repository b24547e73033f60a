-- ===== src/Origin.antt =====
-- internal/application/origin.go: the origin in an application's resource. The functions of package
-- unstructured, which read a field of a nested map, are parameters.
pub mod Stored
use epinio.Base.{
  Bool, true, false, List, [], ◌∷◌, Option, none, some, if◌then◌else◌, Result, ok, err, bind,
}
use epinio.Text.{Text, codes, elem}
use epinio.Text.Affix.{is_empty}
use epinio.Manifest.{GitRef, ApplicationOrigin, origin_path, origin_git, origin_container}
use epinio.Manifest.Sources.{no_origin}

-- What is read of a field: nothing, a value, or an error, with which it counts as not found.
pub data Nested (A : Type 0) : Type 0 where
  missing mistyped : Nested A
  found : A → Nested A

pub record Unstructured (O : Type 0) : Type 0 where
  pub nested_map : O → List Text → Nested O
  pub nested_string : O → List Text → Nested Text
  pub nested_bool : O → List Text → Nested Bool

pub data OriginError : Type 0 where
  empty_path empty_container empty_url empty_revision empty_provider illegal_provider empty_branch
        empty_gitconfig :
      OriginError

-- The value, where it was found.
abbrev pub value_of : {A : Type 0} → Nested A → Option A
value_of missing = none
value_of mistyped = none
value_of (found a) = some a

-- An optional field, which must not be empty where it is.
abbrev pub optional : OriginError → Option Text → Result OriginError Text
optional e none = ok []
optional e (some s) = if is_empty s then err e else ok s

abbrev pub valid_providers : List Text
valid_providers =
    codes "git"
    ∷ codes "github"
    ∷ codes "github_enterprise_cloud"
    ∷ codes "github_enterprise_self_hosted"
    ∷ codes "gitlab"
    ∷ codes "gitlab_enterprise"
    ∷ []

-- `GitProviderFromString`
unfoldable pub git_provider_from_string : Text → Option Text
git_provider_from_string s = if elem s valid_providers then some s else none

abbrev known_provider : Option Text → Result OriginError Text
known_provider none = err illegal_provider
known_provider (some p) = ok p

unfoldable pub provider_of : Option Text → Result OriginError Text
unfolding git_provider_from_string
provider_of none = ok []
provider_of (some s) =
    if is_empty s then err empty_provider else known_provider (git_provider_from_string s)

module _ {O : Type 0} (view : Unstructured O) (origin : O) where
  abbrev git_field : Text → Option Text
  git_field name = value_of (view.nested_string origin (codes "git" ∷ name ∷ []))

  unfoldable pub git_origin : Text → Result OriginError ApplicationOrigin
  unfolding provider_of
  git_origin repository =
      if is_empty repository
      then err empty_url
      else bind (optional empty_revision (git_field (codes "revision"))) λ revision.
        bind (provider_of (git_field (codes "provider"))) λ provider.
          bind (optional empty_branch (git_field (codes "branch"))) λ branch.
            bind (optional empty_gitconfig (git_field (codes "gitconfig"))) λ gitconfig.
              ok (record no_origin {
                kind = origin_git;
                git = some (record {
                  revision = revision;
                  url = repository;
                  provider = provider;
                  branch = branch;
                  gitconfig = gitconfig;
                });
              })

  abbrev container_origin : Text → Result OriginError ApplicationOrigin
  container_origin container =
      if is_empty container
      then err empty_container
      else ok (record no_origin { kind = origin_container; container = container })

  abbrev archive_of : Option Bool → Bool
  archive_of none = false
  archive_of (some b) = b

  abbrev path_origin : Text → Result OriginError ApplicationOrigin
  path_origin path =
      if is_empty path
      then err empty_path
      else ok (record no_origin {
        kind = origin_path;
        path = path;
        archive = archive_of (value_of (view.nested_bool origin (codes "archive" ∷ [])));
      })

  -- The first of the three origins that is found.
  unfoldable pub first_origin : Result OriginError ApplicationOrigin
  unfolding git_origin
  first_origin = elim (value_of (view.nested_string origin (codes "path" ∷ []))) [
    | some path ↦ path_origin path
    | none ↦ elim (value_of (view.nested_string origin (codes "container" ∷ []))) [
      | some container ↦ container_origin container
      | none ↦ elim (value_of (view.nested_string origin (codes "git" ∷ codes "repository" ∷ []))) [
        | some repository ↦ git_origin repository
        | none ↦ ok no_origin
      ]
    ]
  ]

-- `Origin`
unfoldable pub origin_of : {O : Type 0} → Unstructured O → O → Result OriginError ApplicationOrigin
unfolding first_origin
origin_of view app = elim (value_of (view.nested_map app (codes "spec" ∷ codes "origin" ∷ []))) [
  | none ↦ ok no_origin
  | some origin ↦ first_origin view origin
]
