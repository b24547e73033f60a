-- ===== src/Manifest/Sources.antt =====
-- internal/manifest/manifest.go: UpdateSources and UpdateBASN.
use epinio.Base.{
  ℕ, ◌+◌, false, ◌&&◌, not, List, [], ◌∷◌, Option, none, some, if◌then◌else◌, Result, ok, err, bind,
  ltb, eqb,
}
use epinio.Text.{Text, codes}
use epinio.Text.Affix.{is_empty}
use epinio.Text.Split.{split}
use epinio.Paths.Absolute.{is_abs, abs}
use epinio.Manifest.{
  OriginKind, origin_none, origin_path, origin_git, origin_container, GitRef, ApplicationOrigin,
  ApplicationManifest, Flags, ManifestError, bad_git, too_many_origins, filesystem,
}
use epinio.Manifest.Options.{option, update_builder, update_app_chart, update_name}

abbrev pub no_ref : GitRef
no_ref = record { revision = []; url = []; provider = []; branch = []; gitconfig = [] }

abbrev pub no_origin : ApplicationOrigin
no_origin = record { kind = origin_none; container = []; git = none; path = []; archive = false }

-- How many of the three options were given, the last of which that was given is the kind.
abbrev pub counted : Text → ℕ
counted s = if is_empty s then 0 else 1

abbrev pub kind_of : Text → Text → Text → OriginKind
kind_of path container git =
    if not (is_empty git)
    then origin_git
    else if not (is_empty container)
    then origin_container
    else if not (is_empty path)
    then origin_path
    else origin_none

-- The pieces of a git reference, `repo?,rev?`.
abbrev pub ref_of : Text → Text → List Text → Option GitRef
ref_of git gitconfig [] = some (record no_ref { gitconfig = gitconfig })
ref_of git gitconfig (url ∷ []) = some (record no_ref { url = git; gitconfig = gitconfig })
ref_of git gitconfig (url ∷ revision ∷ []) =
    some (record no_ref { url = url; revision = revision; gitconfig = gitconfig })
ref_of git gitconfig (url ∷ revision ∷ more ∷ pieces) = none

-- The reference is read only where git is the only origin.
unfoldable pub git_ref : ℕ → Text → Text → Option GitRef
git_ref origins git gitconfig =
    if not (is_empty git) && eqb origins 1
    then ref_of git gitconfig (split git b',')
    else some no_ref

abbrev pub replaced :
    OriginKind → Text → Text → Text → GitRef → ApplicationOrigin → ApplicationOrigin
replaced origin_none path container git ref old = old
replaced kind path container git ref old = record {
  kind = kind;
  container = container;
  git = if is_empty git then none else some ref;
  path = path;
  archive = false;
}

module _ {E : Type 0} where
  abbrev pub absolute : Result E Text → OriginKind → Text → Result (ManifestError E) Text
  absolute wd origin_path path = if is_abs path then ok path else wrapped (abs wd path)
    where
      wrapped : Result E Text → Result (ManifestError E) Text
      wrapped (ok p) = ok p
      wrapped (err e) = err (filesystem e)
  absolute wd origin_none path = ok path
  absolute wd origin_git path = ok path
  absolute wd origin_container path = ok path

module _ {E : Type 0} (wd : Result E Text) where
  -- What the options say of the sources, in a working directory.
  unfoldable pub sources :
      Text → Text → Text → Text → ApplicationOrigin → Result (ManifestError E) ApplicationOrigin
  unfolding git_ref abs
  sources path git gitconfig container old =
      let origins = counted path + counted container + counted git in
      let kind = kind_of path container git in
      elim (git_ref origins git gitconfig) [
        | none ↦ err (bad_git git)
        | some ref ↦
            if ltb 1 origins
            then err too_many_origins
            else bind (absolute wd kind path) λ p. ok (replaced kind p container git ref old)
      ]

  -- `UpdateSources`
  unfoldable pub update_sources :
      Flags E → ApplicationManifest → Result (ManifestError E) ApplicationManifest
  unfolding sources
  update_sources flags m = bind (option (flags.get_string (codes "path"))) λ path.
      bind (option (flags.get_string (codes "git"))) λ git.
        bind (option (flags.get_string (codes "git-config"))) λ gitconfig.
          bind (option (flags.get_string (codes "container-image-url"))) λ container.
            bind (sources path git gitconfig container m.origin)
              λ origin. ok (record m { origin = origin })

  -- `UpdateBASN`
  unfoldable pub update_basn :
      Flags E → ApplicationManifest → Result (ManifestError E) ApplicationManifest
  unfolding update_builder update_app_chart update_sources update_name
  update_basn flags m = bind (update_builder flags m) λ m1.
      bind (update_app_chart flags m1)
        λ m2. bind (update_sources flags m2) λ m3. update_name flags m3
