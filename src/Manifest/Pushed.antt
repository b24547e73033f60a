-- ===== src/Manifest/Pushed.antt =====
-- internal/manifest/manifest.go: the origin that Get settles on; internal/cli/cmd/apps.go: the origin
-- of an application that is pushed.
use epinio.Base.{
  Bool, true, false, List, [], ◌∷◌, ◌≡◌, refl, sym, subst, ◌∙◌, if◌then◌else◌, Result, ok, err,
  bind-ok, Bool-cases, inl, inr, ap,
}
use epinio.Text.{Text, codes}
use epinio.Text.Affix.{is_empty}
use epinio.Paths.Absolute.{is_abs, abs, dir, abs-is_abs, dir-is_abs, join_paths-is_abs}
use epinio.Manifest.{
  OriginKind, origin_none, origin_path, origin_git, origin_container, ApplicationOrigin,
  ApplicationManifest, Flags, ManifestError, filesystem, bad_yaml,
}
use epinio.Manifest.Options.{update_routes, update_ice}
use epinio.Manifest.Sources.{update_basn, no_origin}
use epinio.Manifest.Read.{
  Files, wrapped, default_origin, base_manifest, git_url, located, checked_origin, decoded, get,
}
use epinio.Manifest.Push.{
  completed_origin, verified_manifest, push_manifest, accessible, manifest_path,
}
use epinio.Manifest.OneOrigin.{HoldsAt, KindHolds, OneOrigin, url_given, basn-KindHolds}
use epinio.Manifest.Unchanged.{ice-origin, routes-origin}

located_path :
    (file : Text) (o : ApplicationOrigin)
    → is_abs file ≡ true
    → o.kind ≡ origin_path
    → o.container ≡ []
    → git_url o.git ≡ []
    → KindHolds (located file o)
unfolding located
located_path file o h k c g = elim (Bool-cases (is_abs o.path)) [
  | inl y ↦ rw (k, y) (y, c, g)
  | inr n ↦ rw (k, n) (join_paths-is_abs (dir file) o.path (dir-is_abs file h), c, g)
]

module _ {E : Type 0} where
  checked_origin-KindHolds :
      (file : Text) (o result : ApplicationOrigin)
      → is_abs file ≡ true
      → checked_origin {E = E} file o ≡ ok result
      → KindHolds result
  unfolding checked_origin located
  checked_origin-KindHolds file o result h e =
      go o.path o.container (git_url o.git) refl refl refl e
    where
      go :
          (path container url : Text)
          → o.path ≡ path
          → o.container ≡ container
          → git_url o.git ≡ url
          → ◌≡◌ {A = Result (ManifestError E) ApplicationOrigin} (checked_origin file o) (ok result)
          → KindHolds result
      go [] [] [] a b c k =
          let same : located file (default_origin file) ≡ result =
            cc (rw (a, b, c, checked_origin) at k) in
          subst (λ r. KindHolds r) same (located_path file (default_origin file) h refl refl refl)
      go (x ∷ path) [] [] a b c k =
          let same : located file (record o { kind = origin_path }) ≡ result =
            cc (rw (a, b, c, checked_origin) at k) in
          subst (λ r. KindHolds r) same
            (located_path file (record o { kind = origin_path }) h refl b c)
      go [] (x ∷ container) [] a b c k =
          let same : record o { kind = origin_container } ≡ result =
            cc (rw (a, b, c, checked_origin) at k) in
          subst (λ r. KindHolds r) same (a, rw b refl, c)
      go [] [] (x ∷ url) a b c k =
          let same : record o { kind = origin_git } ≡ result =
            cc (rw (a, b, c, checked_origin) at k) in
          subst (λ r. KindHolds r) same (a, b, rw c refl)
      go (x ∷ path) (y ∷ container) [] a b c k = absurd (cc (rw (a, b, c, checked_origin) at k))
      go (x ∷ path) [] (y ∷ url) a b c k = absurd (cc (rw (a, b, c, checked_origin) at k))
      go [] (x ∷ container) (y ∷ url) a b c k = absurd (cc (rw (a, b, c, checked_origin) at k))
      go (x ∷ path) (y ∷ container) (z ∷ url) a b c k =
          absurd (cc (rw (a, b, c, checked_origin) at k))

module _ {E : Type 0} (files : Files E) (h : (d : Text) → files.wd ≡ ok d → is_abs d ≡ true) where
  wrapped-ok :
      {A : Type 0} (f : E → ManifestError E) (r : Result E A) (a : A)
      → wrapped f r ≡ ok a
      → r ≡ ok a
  wrapped-ok f (ok b) a e = let same : b ≡ a = cc in ap (λ x. ok x) same
  wrapped-ok f (err x) a e = absurd (cc)

  -- Whatever the file says, a manifest that is read has one origin, which is the directory of the file
  -- unless it names another.
  pub get-KindHolds :
      (path : Text) (m : ApplicationManifest) → get files path ≡ ok m → KindHolds m.origin
  unfolding get decoded
  get-KindHolds path m e =
      let (file, a, e1) = bind-ok (wrapped filesystem (abs files.wd path)) _ m e in
      let (found, b, e2) = bind-ok (wrapped filesystem (files.exists file)) _ m e1 in
      let rooted =
        abs-is_abs files.wd path file h (wrapped-ok filesystem (abs files.wd path) file a) in
      chosen file found rooted e2
    where
      chosen :
          (file : Text) (found : Bool)
          → is_abs file ≡ true
          → (if found then decoded files file else ok (base_manifest (default_origin file))) ≡ ok m
          → KindHolds m.origin
      chosen file true rooted k =
          let (content, a, e1) = bind-ok (wrapped filesystem (files.read file)) _ m k in
          let (read, b, e2) =
            bind-ok (wrapped bad_yaml (files.unmarshal content (base_manifest no_origin))) _ m e1 in
          let (origin, c, e3) = bind-ok (checked_origin file read.origin) _ m e2 in
          let same : origin ≡ m.origin = cc in
          subst (λ r. KindHolds r) same (checked_origin-KindHolds file read.origin origin rooted c)
      chosen file false rooted k =
          let same : default_origin file ≡ m.origin = cc in
          subst (λ r. KindHolds r) same (dir-is_abs file rooted, refl, refl)

  completed_origin-OneOrigin :
      (wd : Text) (o : ApplicationOrigin)
      → is_abs wd ≡ true
      → KindHolds o
      → OneOrigin (completed_origin wd o)
  unfolding completed_origin
  completed_origin-OneOrigin wd o a k = go o.kind refl
    where
      holds : (kind : OriginKind) → o.kind ≡ kind → HoldsAt kind o.path o.container (git_url o.git)
      holds kind e = subst (λ (x : OriginKind). HoldsAt x o.path o.container (git_url o.git)) e k

      go : (kind : OriginKind) → o.kind ≡ kind → OneOrigin (completed_origin wd o)
      go origin_none e =
          let h = holds origin_none e in rw (e, completed_origin) ((λ n. cc), (a, h.1, h.2))
      go origin_path e = rw (e, completed_origin) ((λ n. cc), k)
      go origin_git e = rw (e, completed_origin) ((λ n. cc), k)
      go origin_container e = rw (e, completed_origin) ((λ n. cc), k)

  accessible-ok :
      (stat : Text → Result E Bool) (o result : ApplicationOrigin)
      → accessible files stat o ≡ ok result
      → o ≡ result
  accessible-ok stat o result e = go o.kind refl
    where
      go : (kind : OriginKind) → o.kind ≡ kind → o ≡ result
      go origin_path k =
          let (there, a, made) = bind-ok (wrapped filesystem (stat o.path)) _ result (rw k at e) in
          cc
      go origin_none k = cc
      go origin_git k = cc
      go origin_container k = cc

  verified_manifest-OneOrigin :
      (stat : Text → Result E Bool) (flags : Flags E) (env_replace : Bool) (wd : Text)
      (m result : ApplicationManifest)
      → is_abs wd ≡ true
      → KindHolds m.origin
      → verified_manifest files stat flags env_replace wd m ≡ ok result
      → OneOrigin result.origin
  unfolding verified_manifest
  verified_manifest-OneOrigin stat flags env_replace wd m result a o e =
      elim (Bool-cases (is_empty m.name)) [
        | inl n ↦ absurd (cc (rw n at e))
        | inr n ↦
            let (origin, t, made) =
              bind-ok (accessible files stat (completed_origin wd m.origin)) _ result (rw n at e) in
            let same : completed_origin wd m.origin ≡ result.origin =
              accessible-ok stat (completed_origin wd m.origin) origin t
              ∙ ap (λ x. elim x [ ok pushed ↦ pushed.origin | err y ↦ no_origin ]) made in
            subst (λ x. OneOrigin x) same (completed_origin-OneOrigin wd m.origin a o)
      ]

  -- In a working directory that is absolute, an application is pushed with exactly one origin, which
  -- is the one that its kind names, whatever the manifest file and the options say: a path that is
  -- absolute, with no image and no repository; an image, with no path and no repository; or a
  -- repository, with no path and no image; unless the option --git starts with a comma, so that it
  -- has no repository.
  pub push_manifest-OneOrigin :
      (stat : Text → Result E Bool) (flags : Flags E) (env_replace : Bool) (args : List Text)
      (m : ApplicationManifest)
      → ((git : Text) → flags.get_string (codes "git") ≡ ok git → url_given git ≡ true)
      → push_manifest files stat flags env_replace args ≡ ok m
      → OneOrigin m.origin
  unfolding push_manifest
  push_manifest-OneOrigin stat flags env_replace args m g e =
      let (wd, a, e1) = bind-ok (wrapped filesystem files.wd) _ m e in
      let (m0, b, e2) = bind-ok (get files (manifest_path files stat wd args)) _ m e1 in
      let (m1, c, e3) = bind-ok (update_ice flags m0) _ m e2 in
      let (m2, d, e4) = bind-ok (update_basn files.wd flags m1) _ m e3 in
      let (m3, r, e5) = bind-ok (update_routes flags m2) _ m e4 in
      let rooted = h wd (wrapped-ok filesystem files.wd wd a) in
      let o0 = get-KindHolds (manifest_path files stat wd args) m0 b in
      let o1 = subst (λ x. KindHolds x) (sym (ice-origin flags m0 m1 c)) o0 in
      let o2 = basn-KindHolds files.wd h flags m1 m2 g o1 d in
      let o3 = subst (λ x. KindHolds x) (sym (routes-origin flags m2 m3 r)) o2 in
      verified_manifest-OneOrigin stat flags env_replace wd m3 m rooted o3 e5
