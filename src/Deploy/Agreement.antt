-- ===== src/Deploy/Agreement.antt =====
-- ValidateCV of internal/application/application.go and getValuesYAML of internal/helm/helm.go check
-- the same custom values: where they agree, and where they do not.
use epinio.Base.{
  List, Result-cases, [], ◌∷◌, ◌++◌, Option, none, some, ◌≡◌, ◌≢◌, refl, inl, inr, ok, err, All,
}
use epinio.Text.{Text, codes}
use epinio.Text.Maps.{Map, lookup, insert}
use epinio.Settings.{ChartSetting, Floats, Value, strip_indices, validate_cv}
use epinio.Settings.Nested.{IsNested}
use epinio.Settings.Fields.{validate_field_iff}
use epinio.Settings.Checked.{Accepted, validate_cv_iff}
use epinio.Deploy.{
  DeployError, setting_unknown, typed_value, user_values, user_of, ServerConfig, AppChart,
  ChartParameters, ChartParam, chart_param, values_of,
}

-- A custom value whose key has no index, and is declared with a type that is no map.
abbrev pub IsPlain : Map ChartSetting → Text × Text → Type 0
IsPlain decl (key, value) =
    (strip_indices key ≡ key)
    × ((spec : ChartSetting) × (lookup key decl ≡ some spec) × (spec.type ≢ codes "map"))

module _ {F : Type 0} (floats : Floats F) where
  typed_value-Accepted :
      (decl : Map ChartSetting) (key value : Text)
      → IsPlain decl (key, value)
      → Accepted floats decl (key, value)
      → (v : Value F) × (typed_value floats decl key value ≡ ok v)
  unfolding typed_value
  typed_value-Accepted decl key value (same, (spec, e, no_map)) (inl (other, f, t)) =
      let f' : lookup key decl ≡ some other = rw same at f in
      let equal : spec ≡ other = cc in
      elim t [
        | inl m ↦ absurd (no_map (rw equal m))
        | inr has ↦
            let (v, k) = (validate_field_iff floats key value other).1 has in
            (v, rw (f', k, typed_value) refl)
      ]
  typed_value-Accepted decl key value (same, (spec, e, no_map)) (inr (f, n)) =
      let f' : lookup key decl ≡ none = rw same at f in absurd (cc)

  user_values_some :
      (decl : Map ChartSetting) (settings : Map Text) (user : Map (Value F))
      → All (IsPlain decl) settings
      → All (Accepted floats decl) settings
      → (m : Map (Value F)) × (user_values floats decl settings user ≡ ok m)
  unfolding user_values
  user_values_some decl [] user p a = (user, refl)
  user_values_some decl ((key, value) ∷ rest) user p a =
      let (v, k) = typed_value-Accepted decl key value p.0 a.0 in
      let (m, more) = user_values_some decl rest (insert key v user) p.1 a.1 in
      (m, rw (k, user_values) more)

  -- Custom values of plain keys in which ValidateCV finds no issue are deployed: the last-minute check
  -- refuses none of them.
  pub validate_cv-values_of :
      (config : ServerConfig) (chart : AppChart) (p : ChartParameters)
      → All (IsPlain chart.settings) p.settings
      → validate_cv floats p.settings chart.settings ≡ []
      → (c : ChartParam F) × (values_of floats config chart p ≡ ok c)
  unfolding values_of user_of
  validate_cv-values_of config chart p plain h =
      let accepted = (validate_cv_iff floats p.settings chart.settings).0 h in
      let (m, k) = user_values_some chart.settings p.settings [] plain accepted in
      made (some_user p.settings m k)
    where
      some_user :
          (settings : Map Text) (m : Map (Value F))
          → user_values floats chart.settings settings [] ≡ ok m
          → (user : Option (Map (Value F))) × (user_of floats chart.settings settings ≡ ok user)
      some_user [] m k = (none, refl)
      some_user (s ∷ settings) m k = (some m, rw (k, user_of) refl)

      made :
          (user : Option (Map (Value F))) × (user_of floats chart.settings p.settings ≡ ok user)
          → (c : ChartParam F) × (values_of floats config chart p ≡ ok c)
      made (user, k) = (chart_param config chart p user, rw (k, values_of) refl)

  user_values_undeclared :
      (decl : Map ChartSetting) (before after : Map Text) (key value : Text) (user : Map (Value F))
      → lookup key decl ≡ none
      → (e : DeployError) × (user_values floats decl (before ++ (key, value) ∷ after) user ≡ err e)
  unfolding user_values
  user_values_undeclared decl [] after key value user absent =
      (setting_unknown key, rw (absent, user_values, typed_value) refl)
  user_values_undeclared decl ((k, v) ∷ before) after key value user absent =
      elim (Result-cases (typed_value floats decl k v)) [
        | inl (typed, is) ↦
            let (e, more) =
              user_values_undeclared decl before after key value (insert k typed user) absent in
            (e, rw (is, user_values) more)
        | inr (e, is) ↦ (e, rw (is, user_values) refl)
      ]

  All-put :
      {A : Type 0} (P : A → Type 0) (x : A) (before after : List A)
      → All P (before ++ after)
      → P x
      → All P (before ++ x ∷ after)
  All-put P x [] after h k = (k, h)
  All-put P x (y ∷ before) after h k = (h.0, All-put P x before after h.1 k)

  -- Custom values that have no issue still have none for ValidateCV with one more that is below a map,
  -- and whose key has no index of one character and is not declared itself; but wherever it is among
  -- them, the application cannot be deployed: the last-minute check fails.
  pub nested_setting_refused :
      (config : ServerConfig) (chart : AppChart) (p : ChartParameters) (before after : Map Text)
      (key value : Text)
      → p.settings ≡ before ++ (key, value) ∷ after
      → validate_cv floats (before ++ after) chart.settings ≡ []
      → strip_indices key ≡ key
      → lookup key chart.settings ≡ none
      → IsNested chart.settings key
      → (validate_cv floats p.settings chart.settings ≡ [])
        × ((e : DeployError) × (values_of floats config chart p ≡ err e))
  unfolding values_of
  nested_setting_refused config chart p before after key value is fine same absent n =
      let others = (validate_cv_iff floats (before ++ after) chart.settings).0 fine in
      let accepted : Accepted floats chart.settings (key, value) =
        inr (rw same absent, rw same n) in
      let (e, refusal) =
        refused before (user_values_undeclared chart.settings before after key value [] absent) in
      let refusal' : user_of floats chart.settings p.settings ≡ err e = rw is refusal in
      (
        rw is (
            (validate_cv_iff floats (before ++ (key, value) ∷ after) chart.settings).1
              (All-put (Accepted floats chart.settings) (key, value) before after others accepted)),
        (e, rw (refusal', values_of) refl),
      )
    where
      refused :
          (before : Map Text)
          → ((e : DeployError) × (user_values floats chart.settings
                  (before ++ (key, value) ∷ after)
                  []
                ≡ err e))
          → (e : DeployError) × (user_of floats chart.settings (before ++ (key, value) ∷ after)
              ≡ err e)
      refused [] (e, r) = (e, rw (r, user_of) refl)
      refused (s ∷ before) (e, r) = (e, rw (r, user_of) refl)
