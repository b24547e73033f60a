-- ===== src/App/Bound.antt =====
-- internal/application/configurations.go and services.go: the applications themselves that are
-- bound to a configuration or a service, fetched by their names.
pub mod Collected
mod Tests
use epinio.Base.{
  Bool, true, false, List, [], ◌∷◌, ◌++◌, Option, none, some, ◌≡◌, if◌then◌else◌, Result, ok, err,
  get_or,
}
use epinio.Text.{Text}
use epinio.Text.Maps.{Map, lookup, insert}
use epinio.App.Store.{AppRef, AppSecret, ApiError}
use epinio.App.Bindings.{
  decode_configuration_key, decode_service_key, bound_apps_names, services_bound_apps_names,
}

-- `A` stands for the full data of an application, and `fetch` for the call that collects it, which
-- gives nothing if it fails.
module _ {A : Type 0} (fetch : AppRef → Option A) where
  -- The loop over the names of the applications of one key: the applications that are appended,
  -- and those that were fetched so far. A failure ends the loop.
  pub fetch_apps : Text → List Text → Map A → List A × Map A
  fetch_apps namespace [] fetched = ([], fetched)
  fetch_apps namespace (name ∷ names) fetched = elim (lookup name fetched) [
    | some app ↦ let (apps, fetched') = fetch_apps namespace names fetched in (app ∷ apps, fetched')
    | none ↦ elim (fetch (record { name = name; namespace = namespace })) [
      | none ↦ ([], fetched)
      | some app ↦
          let (apps, fetched') = fetch_apps namespace names (insert name app fetched) in
          (app ∷ apps, fetched')
    ]
  ]

  -- `result[name] = append(result[name], …)`, which no application leaves as it is.
  pub append_apps : Text → List A → Map (List A) → Map (List A)
  append_apps name [] result = result
  append_apps name (app ∷ apps) result =
      insert name (get_or (lookup name result) [] ++ app ∷ apps) result

  -- The loop over the entries of the map of bindings; `none` is the panic of a key with one part.
  pub collect_apps :
      (Text → Option (Text × Text)) → Map (List Text) → Map A → Map (List A) → Option (Map (List A))
  unfolding fetch_apps append_apps
  collect_apps decode [] fetched result = some result
  collect_apps decode ((key, names) ∷ rest) fetched result = elim (decode key) [
    | none ↦ none
    | some (name, namespace) ↦
        let (apps, fetched') = fetch_apps namespace names fetched in
        collect_apps decode rest fetched' (append_apps name apps result)
  ]

  module _ {W : Type 0} (list : Text → Text → W → Result ApiError (List AppSecret)) where
    pub bound_apps : Text → W → Option (Result ApiError (Map (List A)))
    unfolding collect_apps
    bound_apps namespace w = elim (bound_apps_names list namespace w) [
      | err e ↦ some (err e)
      | ok bindings ↦ elim (collect_apps decode_configuration_key bindings [] []) [
        | none ↦ none
        | some result ↦ some (ok result)
      ]
    ]

    pub services_bound_apps : Text → W → Option (Result ApiError (Map (List A)))
    unfolding collect_apps
    services_bound_apps namespace w = elim (services_bound_apps_names list namespace w) [
      | err e ↦ some (err e)
      | ok bindings ↦ elim (collect_apps decode_service_key bindings [] []) [
        | none ↦ none
        | some result ↦ some (ok result)
      ]
    ]
