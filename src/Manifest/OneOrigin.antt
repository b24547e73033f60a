-- ===== src/Manifest/OneOrigin.antt =====
-- internal/manifest/manifest.go, internal/cli/cmd/apps.go: the origin of a manifest that is pushed.
use epinio.Base.{
  ℕ, Bool, true, false, not, List, [], ◌∷◌, Option, none, some, ◌≡◌, ◌≢◌, refl, sym, subst, ◌∙◌,
  Result, ok, err, bind-ok, Bool-cases, inl, inr, eqb, arith, ap,
}
use epinio.Text.{Text, codes}
use epinio.Text.Affix.{is_empty}
use epinio.Text.Split.{split, push_head}
use epinio.Paths.Absolute.{is_abs, abs, abs-is_abs}
use epinio.Manifest.{
  OriginKind, origin_none, origin_path, origin_git, origin_container, GitRef, ApplicationOrigin,
  ApplicationManifest, Flags, ManifestError, filesystem, bad_git,
}
use epinio.Manifest.Options.{option, update_builder, update_app_chart}
use epinio.Manifest.Sources.{
  ref_of, git_ref, no_ref, absolute, replaced, sources, update_sources, update_basn,
}
use epinio.Manifest.Read.{git_url}
use epinio.Manifest.Unchanged.{builder-origin, app_chart-origin, name-origin}

-- The source that the kind names is there, and no other: a path, which is absolute, an image, or a
-- repository. There is none yet where there is no kind.
abbrev pub HoldsAt : OriginKind → (path container url : Text) → Type 0
HoldsAt origin_none path container url = (path ≡ []) × (container ≡ []) × (url ≡ [])
HoldsAt origin_path path container url = (is_abs path ≡ true) × (container ≡ []) × (url ≡ [])
HoldsAt origin_container path container url =
    (path ≡ []) × (is_empty container ≡ false) × (url ≡ [])
HoldsAt origin_git path container url = (path ≡ []) × (container ≡ []) × (is_empty url ≡ false)

abbrev pub KindHolds : ApplicationOrigin → Type 0
KindHolds o = HoldsAt o.kind o.path o.container (git_url o.git)

abbrev pub OneOrigin : ApplicationOrigin → Type 0
OneOrigin o = (o.kind ≢ origin_none) × KindHolds o

-- A git option whose repository is not empty.
abbrev pub url_given : Text → Bool
url_given [] = true
url_given (c ∷ s) = not (eqb c b',')

ref_of-url :
    (c : ℕ) (s gitconfig : Text) (ref : GitRef)
    → url_given (c ∷ s) ≡ true
    → ref_of (c ∷ s) gitconfig (split (c ∷ s) b',') ≡ some ref
    → is_empty ref.url ≡ false
unfolding split
ref_of-url c s gitconfig ref h e =
    let inside : eqb c b',' ≡ false = ground arith in go (split s b',') (rw inside at e)
  where
    go :
        (ps : List Text)
        → ref_of (c ∷ s) gitconfig (push_head c ps) ≡ some ref
        → is_empty ref.url ≡ false
    go [] k =
        let same : some (record no_ref { url = c ∷ s; gitconfig = gitconfig }) ≡ some ref = k in cc
    go (p ∷ []) k = cc
    go (p ∷ q ∷ []) k = cc
    go (p ∷ q ∷ r ∷ ps) k = absurd (cc)

option-ok : {E A : Type 0} (r : Result E A) (a : A) → option r ≡ ok a → r ≡ ok a
option-ok (ok b) a h = let same : b ≡ a = cc in ap (λ x. ok x) same
option-ok (err e) a h = absurd (cc)

module _ {E : Type 0} (wd : Result E Text) (h : (d : Text) → wd ≡ ok d → is_abs d ≡ true) where
  absolute-is_abs :
      (path result : Text) → absolute wd origin_path path ≡ ok result → is_abs result ≡ true
  absolute-is_abs path result e = elim (Bool-cases (is_abs path)) [
    | inl y ↦ let same : path ≡ result = cc (rw (y, absolute) at e) in rw (← same) y
    | inr n ↦ wrapped_ok (abs wd path) refl (rw (n, absolute) at e)
  ]
    where
      wrapped_ok :
          (r : Result E Text)
          → abs wd path ≡ r
          → elim r [ ok p ↦ ok p | err x ↦ err (filesystem x) ] ≡ ok result
          → is_abs result ≡ true
      wrapped_ok (ok p) k r =
          let same : p ≡ result = cc in abs-is_abs wd path result h (k ∙ ap (λ t. ok t) same)
      wrapped_ok (err x) k r = absurd (cc)

  sources-KindHolds :
      (path git gitconfig container : Text) (old result : ApplicationOrigin)
      → url_given git ≡ true
      → KindHolds old
      → sources wd path git gitconfig container old ≡ ok result
      → KindHolds result
  unfolding sources git_ref
  sources-KindHolds [] [] gitconfig [] old result g o e =
      let same : old ≡ result = cc in subst (λ r. KindHolds r) same o
  sources-KindHolds [] [] gitconfig (c ∷ container) old result g o e =
      let same : replaced origin_container [] (c ∷ container) [] no_ref old ≡ result = cc in
      subst (λ r. KindHolds r) same (refl, refl, refl)
  sources-KindHolds (p ∷ path) [] gitconfig [] old result g o e =
      let (full, made, same) = bind-ok (absolute wd origin_path (p ∷ path)) _ result e in
      let whole : replaced origin_path full [] [] no_ref old ≡ result = cc in
      subst (λ r. KindHolds r) whole (absolute-is_abs (p ∷ path) full made, refl, refl)
  sources-KindHolds [] (c ∷ git) gitconfig [] old result g o e =
      read (ref_of (c ∷ git) gitconfig (split (c ∷ git) b',')) refl e
    where
      read :
          (r : Option GitRef)
          → ref_of (c ∷ git) gitconfig (split (c ∷ git) b',') ≡ r
          → ◌≡◌ {A = Result (ManifestError E) ApplicationOrigin}
              (elim r [
                | none ↦ err (bad_git (c ∷ git))
                | some ref ↦ ok (replaced origin_git [] [] (c ∷ git) ref old)
              ])
              (ok result)
          → KindHolds result
      read none k t = absurd (cc)
      read (some ref) k t =
          let whole : replaced origin_git [] [] (c ∷ git) ref old ≡ result = cc in
          subst (λ r. KindHolds r) whole (refl, refl, ref_of-url c git gitconfig ref g k)
  sources-KindHolds [] (c ∷ git) gitconfig (d ∷ container) old result g o e = absurd (cc)
  sources-KindHolds (p ∷ path) (c ∷ git) gitconfig [] old result g o e = absurd (cc)
  sources-KindHolds (p ∷ path) [] gitconfig (d ∷ container) old result g o e = absurd (cc)
  sources-KindHolds (p ∷ path) (c ∷ git) gitconfig (d ∷ container) old result g o e = absurd (cc)

  -- Reading the options of the sources keeps an origin as it is or replaces it by one.
  update_sources-KindHolds :
      (flags : Flags E) (m result : ApplicationManifest)
      → ((git : Text) → flags.get_string (codes "git") ≡ ok git → url_given git ≡ true)
      → KindHolds m.origin
      → update_sources wd flags m ≡ ok result
      → KindHolds result.origin
  unfolding update_sources
  update_sources-KindHolds flags m result g o e =
      let (path, a, e1) = bind-ok (option (flags.get_string (codes "path"))) _ result e in
      let (git, b, e2) = bind-ok (option (flags.get_string (codes "git"))) _ result e1 in
      let (gitconfig, c, e3) =
        bind-ok (option (flags.get_string (codes "git-config"))) _ result e2 in
      let (container, d, e4) =
        bind-ok (option (flags.get_string (codes "container-image-url"))) _ result e3 in
      let (origin, made, e5) =
        bind-ok (sources wd path git gitconfig container m.origin) _ result e4 in
      let same : origin ≡ result.origin = cc in
      subst (λ r. KindHolds r) same
        (sources-KindHolds path git gitconfig container m.origin origin
          (g git (option-ok (flags.get_string (codes "git")) git b)) o made)

  pub basn-KindHolds :
      (flags : Flags E) (m result : ApplicationManifest)
      → ((git : Text) → flags.get_string (codes "git") ≡ ok git → url_given git ≡ true)
      → KindHolds m.origin
      → update_basn wd flags m ≡ ok result
      → KindHolds result.origin
  unfolding update_basn
  basn-KindHolds flags m result g o e =
      let (m1, a, e1) = bind-ok (update_builder flags m) _ result e in
      let (m2, b, e2) = bind-ok (update_app_chart flags m1) _ result e1 in
      let (m3, c, e3) = bind-ok (update_sources wd flags m2) _ result e2 in
      let first : m.origin ≡ m1.origin = sym (builder-origin flags m m1 a) in
      let second : m1.origin ≡ m2.origin = sym (app_chart-origin flags m1 m2 b) in
      let third =
        update_sources-KindHolds flags m2 m3 g (subst (λ r. KindHolds r) (first ∙ second) o) c in
      subst (λ r. KindHolds r) (sym (name-origin flags m3 result e3)) third
