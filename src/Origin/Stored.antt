-- ===== src/Origin/Stored.antt =====
-- internal/application/origin.go: the fields that SetOrigin stores, and Origin.
use epinio.Base.{
  Bool, true, false, [], ◌∷◌, Option, none, some, ◌≡◌, refl, subst, if◌then◌else◌, ok,
}
use epinio.Text.{Text, codes, elem}
use epinio.Text.Affix.{is_empty}
use epinio.Manifest.{
  OriginKind, GitRef, ApplicationOrigin, origin_none, origin_path, origin_git, origin_container,
}
use epinio.Manifest.Sources.{no_origin}
use epinio.Manifest.Read.{git_url}
use epinio.Paths.Absolute.{is_abs}
use epinio.Manifest.OneOrigin.{HoldsAt, OneOrigin}
use epinio.Origin.{
  Nested, missing, found, Unstructured, OriginError, valid_providers, origin_of, first_origin,
  git_origin, provider_of, optional, value_of, git_provider_from_string, empty_revision,
  empty_branch, empty_gitconfig,
}

-- A field that the encoder of JSON leaves out where it is empty.
abbrev pub omit_empty : Text → Nested Text
omit_empty [] = missing
omit_empty (c ∷ s) = found (c ∷ s)

abbrev pub omit_false : Bool → Nested Bool
omit_false true = found true
omit_false false = missing

module _ {O : Type 0} (view : Unstructured O) where
  abbrev pub StoredGit : O → Option GitRef → Type 0
  StoredGit stored none =
      view.nested_string stored (codes "git" ∷ codes "repository" ∷ []) ≡ missing
  StoredGit stored (some ref) =
      (view.nested_string stored (codes "git" ∷ codes "repository" ∷ []) ≡ found ref.url)
      × (view.nested_string stored (codes "git" ∷ codes "revision" ∷ []) ≡ omit_empty ref.revision)
      × (view.nested_string stored (codes "git" ∷ codes "provider" ∷ []) ≡ omit_empty ref.provider)
      × (view.nested_string stored (codes "git" ∷ codes "branch" ∷ []) ≡ omit_empty ref.branch)
      × (view.nested_string stored (codes "git" ∷ codes "gitconfig" ∷ [])
          ≡ omit_empty ref.gitconfig)

  -- The fields of an origin as the encoder of JSON writes them, by the tags of the structures.
  abbrev pub IsStored : O → ApplicationOrigin → Type 0
  IsStored stored o =
      (view.nested_string stored (codes "path" ∷ []) ≡ omit_empty o.path)
      × (view.nested_string stored (codes "container" ∷ []) ≡ omit_empty o.container)
      × (view.nested_bool stored (codes "archive" ∷ []) ≡ omit_false o.archive)
      × StoredGit stored o.git

abbrev pub known : Option GitRef → Bool
known none = true
known (some ref) = if is_empty ref.provider then true else elem ref.provider valid_providers

-- The origin without the fields of the other kinds.
abbrev pub only_kind : ApplicationOrigin → ApplicationOrigin
only_kind o = elim o.kind [
  | origin_none ↦ no_origin
  | origin_path ↦ record no_origin { kind = origin_path; path = o.path; archive = o.archive }
  | origin_container ↦ record no_origin { kind = origin_container; container = o.container }
  | origin_git ↦ record no_origin { kind = origin_git; git = o.git }
]

-- The source that the kind names is there, and those that are looked for in front of it are not: a
-- path, which is absolute; an image; or a repository.
abbrev pub IsFirstSource : ApplicationOrigin → Type 0
IsFirstSource o = elim o.kind [
  | origin_none ↦ (o.path ≡ []) × (o.container ≡ []) × (o.git ≡ none)
  | origin_path ↦ is_abs o.path ≡ true
  | origin_container ↦ (o.path ≡ []) × (is_empty o.container ≡ false)
  | origin_git ↦ (o.path ≡ []) × (o.container ≡ []) × (is_empty (git_url o.git) ≡ false)
]

-- An origin that is pushed is one.
OneOrigin-IsFirstSource : (o : ApplicationOrigin) → OneOrigin o → IsFirstSource o
OneOrigin-IsFirstSource o (given, kind_holds) = by_kind o.kind refl
  where
    holds : (kind : OriginKind) → o.kind ≡ kind → HoldsAt kind o.path o.container (git_url o.git)
    holds kind e =
        subst (λ (x : OriginKind). HoldsAt x o.path o.container (git_url o.git)) e kind_holds

    by_kind : (kind : OriginKind) → o.kind ≡ kind → IsFirstSource o
    by_kind origin_none e = absurd (given e)
    by_kind origin_path e = let h = holds origin_path e in rw e h.0
    by_kind origin_container e = let h = holds origin_container e in rw e (h.0, h.1)
    by_kind origin_git e = let h = holds origin_git e in rw e h

optional-omit_empty : (e : OriginError) (s : Text) → optional e (value_of (omit_empty s)) ≡ ok s
optional-omit_empty e [] = refl
optional-omit_empty e (c ∷ s) = refl

provider_of-omit_empty :
    (s : Text)
    → (if is_empty s then true else elem s valid_providers) ≡ true
    → provider_of (value_of (omit_empty s)) ≡ ok s
unfolding provider_of
provider_of-omit_empty [] h = refl
provider_of-omit_empty (c ∷ s) h = rw (h, git_provider_from_string) refl

module _ {O : Type 0} (view : Unstructured O) (stored : O) where
  git_origin-stored :
      (ref : GitRef)
      → StoredGit view stored (some ref)
      → known (some ref) ≡ true
      → is_empty ref.url ≡ false
      → git_origin view stored ref.url ≡ ok (record no_origin { kind = origin_git; git = some ref })
  unfolding git_origin
  git_origin-stored ref (url, revision, provider, branch, gitconfig) k h =
      rw
        (
          h,
          revision,
          provider,
          branch,
          gitconfig,
          optional-omit_empty empty_revision ref.revision,
          provider_of-omit_empty ref.provider k,
          optional-omit_empty empty_branch ref.branch,
          optional-omit_empty empty_gitconfig ref.gitconfig,
        )
        refl

  abbrev made : OriginKind → Text → Option GitRef → Text → Bool → ApplicationOrigin
  made kind container git path archive = record {
    kind = kind;
    container = container;
    git = git;
    path = path;
    archive = archive;
  }

  first_origin-stored :
      (kind : OriginKind) (container : Text) (git : Option GitRef) (path : Text) (archive : Bool)
      → IsStored view stored (made kind container git path archive)
      → IsFirstSource (made kind container git path archive)
      → known git ≡ true
      → first_origin view stored ≡ ok (only_kind (made kind container git path archive))
  unfolding first_origin
  first_origin-stored origin_path c g (x ∷ p) true (a, b, d, e) one k = rw (a, first_origin, d) refl
  first_origin-stored origin_path c g (x ∷ p) false (a, b, d, e) one k =
      rw (a, first_origin, d) refl
  first_origin-stored origin_path c g [] archive s one k = absurd (cc)
  first_origin-stored origin_container (x ∷ c) g [] archive (a, b, d, e) one k =
      rw (a, first_origin, b) refl
  first_origin-stored origin_container c g (x ∷ p) archive s one k = absurd (cc)
  first_origin-stored origin_container [] g [] archive s one k = absurd (cc)
  first_origin-stored origin_git [] (some ref) [] archive (a, b, d, e) (x, y, given) k =
      rw (a, first_origin, b, e.0) (git_origin-stored ref e k given)
  first_origin-stored origin_git c none p archive s one k = absurd (cc)
  first_origin-stored origin_git c (some ref) (x ∷ p) archive s one k = absurd (cc)
  first_origin-stored origin_git (x ∷ c) (some ref) [] archive s one k = absurd (cc)
  first_origin-stored origin_none [] none [] archive (a, b, d, e) one k =
      rw (a, first_origin, b, e) refl
  first_origin-stored origin_none c g (x ∷ p) archive s one k = absurd (cc)
  first_origin-stored origin_none (x ∷ c) g [] archive s one k = absurd (cc)
  first_origin-stored origin_none [] (some ref) [] archive s one k = absurd (cc)

-- An origin that was stored in the resource of the application is read back from there, if its kind
-- is the first of the sources that it has, as it is after a push: its kind and the fields of this kind, a git provider being one of the known ones.
pub origin_of-stored :
    {O : Type 0} (view : Unstructured O) (app stored : O) (o : ApplicationOrigin)
    → view.nested_map app (codes "spec" ∷ codes "origin" ∷ []) ≡ found stored
    → IsStored view stored o
    → IsFirstSource o
    → known o.git ≡ true
    → origin_of view app ≡ ok (only_kind o)
unfolding origin_of
origin_of-stored view app stored o h s one k =
    rw (h, origin_of)
      (first_origin-stored view stored o.kind o.container o.git o.path o.archive s one k)
