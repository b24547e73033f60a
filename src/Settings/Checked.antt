-- ===== src/Settings/Checked.antt =====
-- internal/application/application.go: which custom values ValidateCV accepts.
use epinio.Base.{
  List, [], ◌∷◌, ◌++◌, Option, none, some, ◌≡◌, ◌↔◌, ◌⊎◌, refl, inl, inr, All, Bool-cases,
  Result-cases,
}
use epinio.Text.{Text, codes, ◌==◌, ==_iff}
use epinio.Text.Maps.{Map, lookup}
use epinio.Settings.{
  ChartSetting, Floats, SettingError, strip_indices, validate_field, nested_map, checked, issues_of,
  validate_cv,
}
use epinio.Settings.Nested.{IsNested, nested_map_iff}
use epinio.Settings.Fields.{HasType, validate_field_iff}

module _ {F : Type 0} (floats : Floats F) where
  -- What is accepted: a value of a declared key, if it is a map or the value has its type and is in
  -- its range, and any value of an undeclared key below a map.
  abbrev pub Accepted : Map ChartSetting → Text × Text → Type 0
  Accepted decl (key, value) =
      ((spec : ChartSetting) × (lookup (strip_indices key) decl ≡ some spec)
        × ((spec.type ≡ codes "map") ⊎ HasType floats value spec))
      ⊎ ((lookup (strip_indices key) decl ≡ none) × IsNested decl (strip_indices key))

  checked-Accepted :
      (decl : Map ChartSetting) (key value : Text) (o : Option ChartSetting)
      → lookup (strip_indices key) decl ≡ o
      → checked floats decl (strip_indices key) value o ≡ []
      → Accepted decl (key, value)
  unfolding checked
  checked-Accepted decl key value none e h =
      elim (Bool-cases (nested_map decl (strip_indices key))) [
        | inl n ↦ inr (e, (nested_map_iff decl (strip_indices key)).0 n)
        | inr n ↦ absurd (cc (rw n at h))
      ]
  checked-Accepted decl key value (some spec) e h = elim (Bool-cases (spec.type == codes "map")) [
    | inl m ↦ inl (spec, e, inl ((==_iff spec.type (codes "map")).0 m))
    | inr m ↦ elim (Result-cases (validate_field floats (strip_indices key) value spec)) [
      | inl accepted ↦
          inl (spec, e, inr ((validate_field_iff floats (strip_indices key) value spec).0 accepted))
      | inr (error, k) ↦ absurd (cc (rw (m, k) at h))
    ]
  ]

  Accepted-issues_of :
      (decl : Map ChartSetting) (key value : Text)
      → Accepted decl (key, value)
      → issues_of floats decl key value ≡ []
  unfolding issues_of checked
  Accepted-issues_of decl key value (inl (spec, e, inl m)) =
      rw (e, (==_iff spec.type (codes "map")).1 m) refl
  Accepted-issues_of decl key value (inl (spec, e, inr t)) =
      let (v, k) = (validate_field_iff floats (strip_indices key) value spec).1 t in
      elim (Bool-cases (spec.type == codes "map")) [
        | inl m ↦ rw (e, m) refl
        | inr m ↦ rw (e, m, k) refl
      ]
  Accepted-issues_of decl key value (inr (e, n)) =
      rw (e, (nested_map_iff decl (strip_indices key)).1 n) refl

  nil_of_append : (xs ys : List SettingError) → xs ++ ys ≡ [] → (xs ≡ []) × (ys ≡ [])
  nil_of_append [] ys h = (refl, h)
  nil_of_append (x ∷ xs) ys h = absurd (cc)

  validate_cv-Accepted :
      (cv : Map Text) (decl : Map ChartSetting)
      → validate_cv floats cv decl ≡ []
      → All (Accepted decl) cv
  unfolding validate_cv issues_of
  validate_cv-Accepted [] decl h = tt
  validate_cv-Accepted ((key, value) ∷ cv) decl h =
      let (first, rest) = nil_of_append _ _ h in
      (
        checked-Accepted decl key value (lookup (strip_indices key) decl) refl first,
        validate_cv-Accepted cv decl rest,
      )

  Accepted-validate_cv :
      (cv : Map Text) (decl : Map ChartSetting)
      → All (Accepted decl) cv
      → validate_cv floats cv decl ≡ []
  unfolding validate_cv
  Accepted-validate_cv [] decl h = refl
  Accepted-validate_cv ((key, value) ∷ cv) decl h =
      rw (Accepted-issues_of decl key value h.0) (Accepted-validate_cv cv decl h.1)

  -- No issue is reported exactly if every custom value is accepted: its key, without its indices of one
  -- character, is declared to be a map; or is declared with a type that the value has, and a range, of
  -- an integer or a number, that the value is in, or an enumeration, of a string, that has it; or is not
  -- declared and lies below a map.
  pub validate_cv_iff :
      (cv : Map Text) (decl : Map ChartSetting)
      → (validate_cv floats cv decl ≡ []) ↔ All (Accepted decl) cv
  validate_cv_iff cv decl = (validate_cv-Accepted cv decl, Accepted-validate_cv cv decl)
