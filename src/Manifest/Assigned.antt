-- ===== src/Manifest/Assigned.antt =====
-- internal/manifest/manifest.go: what the assignments of --env and --chart-value give.
use epinio.Base.{
  List, [], ◌∷◌, Option, none, some, ◌≡◌, ◌≢◌, refl, ◌∙◌, if◌then◌else◌, ok, bind-ok, Bool-cases,
  Option-cases, inl, inr,
}
use epinio.Text.{Text, codes, ◌==◌}
use epinio.Text.Split.{cut}
use epinio.Text.Maps.{Map, lookup, insert, lookup-insert}
use epinio.Manifest.{ApplicationManifest, Flags, ManifestError, bad_env}
use epinio.Manifest.Options.{assigned, given_list, update_environment}

-- The value of the last assignment to a name.
abbrev pub last_value : Text → List Text → Option Text
last_value name [] = none
last_value name (a ∷ assignments) = elim (last_value name assignments) [
  | some value ↦ some value
  | none ↦ elim (cut a b'=') [
    | none ↦ none
    | some (first, value) ↦ if first == name then some value else none
  ]
]

abbrev or_else : Option Text → Option Text → Option Text
or_else none o = o
or_else (some v) o = some v

module _ {E : Type 0} (bad : Text → ManifestError E) where
  assigned-lookup :
      (name : Text) (assignments : List Text) (m result : Map Text)
      → assigned bad assignments m ≡ ok result
      → lookup name result ≡ or_else (last_value name assignments) (lookup name m)
  unfolding assigned
  assigned-lookup name [] m result h = let same : m ≡ result = cc in rw same refl
  assigned-lookup name (a ∷ assignments) m result h = elim (Option-cases (cut a b'=')) [
    | inl e ↦ absurd (cc (rw (e, assigned) at h))
    | inr ((first, value), e) ↦
        let ih =
          assigned-lookup name assignments (insert first value m) result (rw (e, assigned) at h) in
        rw (ih, lookup-insert)
          (last (last_value name assignments) (cut a b'=') first value (lookup name m) e)
  ]
    where
      last :
          (o : Option Text) (c : Option (Text × Text)) (first value : Text) (below : Option Text)
          → c ≡ some (first, value)
          → or_else o (if first == name then some value else below)
            ≡ or_else
                (elim o [
                  | some w ↦ some w
                  | none ↦ elim c [ none ↦ none | some (n, v) ↦ if n == name then some v else none ]
                ])
                below
      last (some w) c first value below k = refl
      last none c first value below k =
          rw k (elim (Bool-cases (first == name)) [ inl y ↦ rw y refl | inr n ↦ rw n refl ])

module _ {E : Type 0} (bad : Text → ManifestError E) where
  insert-ne-nil : (name value : Text) (m : Map Text) → insert name value m ≢ []
  unfolding insert
  insert-ne-nil name value [] h = cc
  insert-ne-nil name value ((first, old) ∷ m) h = elim (Bool-cases (first == name)) [
    | inl e ↦ cc (rw e at h)
    | inr e ↦ cc (rw e at h)
  ]

  assigned-ne-nil :
      (assignments : List Text) (old result : Map Text)
      → old ≢ []
      → assigned bad assignments old ≡ ok result
      → result ≢ []
  unfolding assigned
  assigned-ne-nil [] old result k h n = k (cc)
  assigned-ne-nil (a ∷ assignments) old result k h n = elim (Option-cases (cut a b'=')) [
    | inl e ↦ cc (rw (e, assigned) at h)
    | inr ((name, value), e) ↦
        assigned-ne-nil assignments (insert name value old) result (insert-ne-nil name value old)
          (rw (e, assigned) at h) n
  ]

  assigned_some :
      (a : Text) (assignments : List Text) (old result : Map Text)
      → assigned bad (a ∷ assignments) old ≡ ok result
      → result ≢ []
  unfolding assigned
  assigned_some a assignments old result h n = elim (Option-cases (cut a b'=')) [
    | inl e ↦ cc (rw (e, assigned) at h)
    | inr ((name, value), e) ↦
        assigned-ne-nil assignments (insert name value old) result (insert-ne-nil name value old)
          (rw (e, assigned) at h) n
  ]

module _ {E : Type 0} (flags : Flags E) (m : ApplicationManifest) where
  update_environment-assigned :
      (assignments : List Text) (result : ApplicationManifest)
      → flags.get_string_slice (codes "env") ≡ ok assignments
      → update_environment flags m ≡ ok result
      → (environment : Map Text) × (assigned {E = E} bad_env assignments [] ≡ ok environment)
        × (result.configuration.environment ≡ given_list environment m.configuration.environment)
  unfolding update_environment
  update_environment-assigned assignments result h e =
      let (environment, a, made) =
        bind-ok (assigned bad_env assignments []) _ result (rw (h, update_environment) at e) in
      (environment, a, cc)

  -- With assignments, every name has in the environment the value of the last assignment to it; the
  -- other names, those of the manifest included, have none.
  pub update_environment-last_value :
      (a : Text) (assignments : List Text) (result : ApplicationManifest) (name : Text)
      → flags.get_string_slice (codes "env") ≡ ok (a ∷ assignments)
      → update_environment flags m ≡ ok result
      → lookup name result.configuration.environment ≡ last_value name (a ∷ assignments)
  unfolding lookup
  update_environment-last_value a assignments result name h e =
      let (environment, made, same) = update_environment-assigned (a ∷ assignments) result h e in
      let all = assigned-lookup bad_env name (a ∷ assignments) [] environment made in
      rw same (
        rw
          (given_some environment (assigned_some {E = E} bad_env a assignments [] environment made))
          (all ∙ or_else-none (last_value name (a ∷ assignments))))
    where
      given_some :
          (environment : Map Text)
          → environment ≢ []
          → given_list environment m.configuration.environment ≡ environment
      given_some [] k = absurd (k refl)
      given_some (v ∷ vs) k = refl

      or_else-none : (o : Option Text) → or_else o none ≡ o
      or_else-none none = refl
      or_else-none (some v) = refl
