-- ===== src/Deploy/Typed.antt =====
-- internal/helm/helm.go: which custom values a chart is deployed with, and which configurations.
use epinio.Base.{
  true, false, [], ◌∷◌, Option, none, some, ◌>>=◌, ◌≡◌, refl, ◌∙◌, ap, inl, inr, Result, ok, err,
  get_or, map, Bool-cases, Option-cases, Result-cases,
}
use epinio.Text.{Text, ◌==◌, ==_iff, elem}
use epinio.Text.Order.{IsUnique, set_of-IsUnique, elem-set_of}
use epinio.Text.Maps.{Map, lookup, insert, keys, lookup-insert, elem-keys}
use epinio.Settings.{ChartSetting, Floats, Value}
use epinio.Deploy.{
  DeployError, typed_value, user_values, unique_strings, ServerConfig, AppChart, ChartParameters,
  values_of, user_of, ConfigParameter, ChartParam,
}

module _ {F : Type 0} (floats : Floats F) (decl : Map ChartSetting) where
  abbrev pub value_of : Result DeployError (Value F) → Option (Value F)
  value_of (ok v) = some v
  value_of (err e) = none

  -- What the loop leaves at a field: the typed value of a custom value, or what was there.
  abbrev left_at : Text → Option Text → Option (Value F) → Option (Value F)
  left_at field none old = old
  left_at field (some value) old = value_of (typed_value floats decl field value)

  user_values-lookup :
      (settings : Map Text) (user m : Map (Value F)) (field : Text)
      → IsUnique (keys settings)
      → user_values floats decl settings user ≡ ok m
      → lookup field m ≡ left_at field (lookup field settings) (lookup field user)
  unfolding user_values lookup
  user_values-lookup [] user m field u h = cc
  user_values-lookup ((first, value) ∷ rest) user m field u h =
      elim (Result-cases (typed_value floats decl first value)) [
        | inr (e, k) ↦ absurd (cc (rw (k, user_values) at h))
        | inl (v, k) ↦
            let below =
              user_values-lookup rest (insert first v user) m field u.1
                (rw (k, user_values) at h) in
            elim (Bool-cases (first == field)) [
              | inl e ↦
                  let same : first ≡ field = (==_iff first field).0 e in
                  let absent : lookup field rest ≡ none = absent_below same in
                  let here : typed_value floats decl field value ≡ ok v = rw (← same) k in
                  below ∙ (rw (absent, e, lookup-insert, e, here) refl)
              | inr e ↦ below ∙ (rw (e, lookup-insert, e) refl)
            ]
      ]
    where
      absent_below : first ≡ field → lookup field rest ≡ none
      absent_below same = elim (Option-cases (lookup field rest)) [
        | inl e ↦ e
        | inr (v, e) ↦
            let there : elem field (keys rest) ≡ true = rw (elem-keys, e) refl in
            let gone : elem field (keys rest) ≡ false = rw (← same) u.0 in absurd (cc (there, gone))
      ]

  -- Where nothing was there before.
  abbrev pub typed_at : Map Text → Text → Option (Value F)
  typed_at settings field =
      lookup field settings >>= λ value. value_of (typed_value floats decl field value)

  left_at-none :
      (field : Text) (o : Option Text)
      → left_at field o none ≡ (o >>= λ value. value_of (typed_value floats decl field value))
  left_at-none field none = refl
  left_at-none field (some value) = refl

  user_of-typed_at :
      (settings : Map Text) (user : Option (Map (Value F)))
      → IsUnique (keys settings)
      → user_of floats decl settings ≡ ok user
      → (field : Text) → lookup field (get_or user []) ≡ typed_at settings field
  unfolding user_of lookup
  user_of-typed_at [] user u h field = let absent : none ≡ user = cc in rw (← absent) refl
  user_of-typed_at (s ∷ settings) user u h field =
      elim (Result-cases (user_values floats decl (s ∷ settings) [])) [
        | inr (e, k) ↦ absurd (cc (rw (k, user_of) at h))
        | inl (m, k) ↦
            let whole : some m ≡ user = cc (rw (k, user_of) at h) in
            rw (← whole) (
              user_values-lookup (s ∷ settings) [] m field u k
              ∙ left_at-none field (lookup field (s ∷ settings)))
      ]

module _ {F : Type 0} (floats : Floats F) (config : ServerConfig) (chart : AppChart) where
  -- What a success has of its parts.
  values_of_ok :
      (p : ChartParameters) (c : ChartParam F)
      → values_of floats config chart p ≡ ok c
      → (user_of floats chart.settings p.settings ≡ ok c.user)
        × (c.epinio.configurations
            ≡ unique_strings (map (λ (b : ConfigParameter). b.name) p.configurations))
  unfolding values_of
  values_of_ok p c h = elim (Result-cases (user_of floats chart.settings p.settings)) [
    | inr (e, k) ↦ absurd (cc (rw (k, values_of) at h))
    | inl (user, k) ↦
        let made = (rw (k, values_of) at h) in
        (k ∙ ap (λ (r : Result DeployError (ChartParam F)). map_user r) made, cc (made))
  ]
    where
      map_user : Result DeployError (ChartParam F) → Result DeployError (Option (Map (Value F)))
      map_user (ok c) = ok c.user
      map_user (err e) = err e

  -- The values that a chart is deployed with have, for each custom value of the application, the value
  -- with the type that the chart declares, and nothing for any other field; the configurations that
  -- are bound are named once each.
  pub values_of-typed_at :
      (p : ChartParameters) (c : ChartParam F)
      → IsUnique (keys p.settings)
      → values_of floats config chart p ≡ ok c
      → ((field : Text)
          → lookup field (get_or c.user []) ≡ typed_at floats chart.settings p.settings field)
        × IsUnique c.epinio.configurations
        × ((name : Text)
            → elem name c.epinio.configurations
              ≡ elem name (map (λ (b : ConfigParameter). b.name) p.configurations))
  values_of-typed_at p c u h =
      let (user, names) = values_of_ok p c h in
      let bound = map (λ (b : ConfigParameter). b.name) p.configurations in
      (
        user_of-typed_at floats chart.settings p.settings c.user u user,
        rw names (set_of-IsUnique [] bound tt),
        λ name. rw names (elem-set_of name [] bound),
      )
