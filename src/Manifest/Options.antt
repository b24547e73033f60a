-- ===== src/Manifest/Options.antt =====
-- internal/manifest/manifest.go: UpdateRoutes, UpdateBuilder, UpdateAppChart, UpdateName, UpdateICE and
-- its parts. The callers drop the manifest that comes with an error.
use epinio.Base.{List, [], ◌∷◌, Option, none, some, if◌then◌else◌, Result, ok, err, bind}
use epinio.Text.{Text, codes, elem}
use epinio.Text.Affix.{is_empty}
use epinio.Text.Split.{cut}
use epinio.Text.Maps.{Map, insert}
use epinio.Text.Order.{set_of}
use epinio.Integers.{ℤ}
use epinio.Manifest.{
  ApplicationManifest, Flags, ManifestError, bad_option, bad_env, bad_chart_value,
}

module _ {E : Type 0} where
  -- The value of an option, whose error is wrapped.
  abbrev pub option : {A : Type 0} → Result E A → Result (ManifestError E) A
  option (ok a) = ok a
  option (err e) = err (bad_option e)

abbrev pub given_list : {A : Type 0} → List A → List A → List A
given_list [] old = old
given_list (x ∷ xs) old = x ∷ xs

abbrev pub given_text : Text → Text → Text
given_text new old = if is_empty new then old else new

abbrev pub given : {A : Type 0} → Option A → Option A → Option A
given none old = old
given (some a) old = some a

abbrev given_routes : List Text → Option (List Text) → Option (List Text)
given_routes [] old = old
given_routes (r ∷ rs) old = some (r ∷ rs)

module _ {E : Type 0} (flags : Flags E) (m : ApplicationManifest) where
  -- `UpdateRoutes`
  unfoldable pub update_routes : Result (ManifestError E) ApplicationManifest
  update_routes = bind (option (flags.get_string_slice (codes "route"))) λ routes.
      bind (option (flags.get_bool (codes "clear-routes"))) λ clear. ok (record m {
        configuration = record m.configuration {
          routes = if clear then some [] else given_routes routes m.configuration.routes;
        };
      })

  -- `UpdateBuilder`
  unfoldable pub update_builder : Result (ManifestError E) ApplicationManifest
  update_builder =
      bind (option (flags.get_string (codes "builder-image")))
        λ image. ok (record m { staging = record { builder = given_text image m.staging.builder } })

  -- `UpdateAppChart`
  unfoldable pub update_app_chart : Result (ManifestError E) ApplicationManifest
  update_app_chart = bind (option (flags.get_string (codes "app-chart"))) λ chart. ok (record m {
    configuration = record m.configuration {
      app_chart = given_text chart m.configuration.app_chart;
    };
  })

  -- `UpdateName`
  unfoldable pub update_name : Result (ManifestError E) ApplicationManifest
  update_name =
      bind (option (flags.get_string (codes "name")))
        λ name. ok (record m { name = given_text name m.name })

  -- `instances`: the number, if the option was given.
  unfoldable pub instances : Result (ManifestError E) (Option ℤ)
  instances =
      bind (option (flags.get_int32 (codes "instances")))
        λ n. ok (if elem (codes "instances") flags.visited then some n else none)

  -- `UpdateInstances`
  unfoldable pub update_instances : Result (ManifestError E) ApplicationManifest
  unfolding instances
  update_instances = bind instances λ i. ok (record m {
    configuration = record m.configuration { instances = given i m.configuration.instances };
  })

  -- `UpdateConfigurations`, with `UniqueStrings`.
  unfoldable pub update_configurations : Result (ManifestError E) ApplicationManifest
  update_configurations = bind (option (flags.get_string_slice (codes "bind"))) λ bound.
      ok (record m {
        configuration = record m.configuration {
          configurations = given_list (set_of [] bound) m.configuration.configurations;
        };
      })

module _ {E : Type 0} where
  -- The loop over assignments of the form `name=value`, and the error for another one.
  unfoldable pub assigned :
      (Text → ManifestError E) → List Text → Map Text → Result (ManifestError E) (Map Text)
  assigned bad [] m = ok m
  assigned bad (a ∷ assignments) m = elim (cut a b'=') [
    | none ↦ err (bad a)
    | some (name, value) ↦ assigned bad assignments (insert name value m)
  ]

module _ {E : Type 0} (flags : Flags E) (m : ApplicationManifest) where
  -- `UpdateEnvironment`
  unfoldable pub update_environment : Result (ManifestError E) ApplicationManifest
  unfolding assigned
  update_environment = bind (option (flags.get_string_slice (codes "env"))) λ assignments.
      bind (assigned bad_env assignments []) λ environment. ok (record m {
        configuration = record m.configuration {
          environment = given_list environment m.configuration.environment;
        };
      })

  -- `UpdateChartValues`
  unfoldable pub update_chart_values : Result (ManifestError E) ApplicationManifest
  unfolding assigned
  update_chart_values = bind (option (flags.get_string_slice (codes "chart-value"))) λ assignments.
      bind (assigned bad_chart_value assignments []) λ values. ok (record m {
        configuration = record m.configuration {
          settings = given_list values m.configuration.settings;
        };
      })

-- `UpdateICE`
unfoldable pub update_ice :
    {E : Type 0} → Flags E → ApplicationManifest → Result (ManifestError E) ApplicationManifest
unfolding update_instances update_configurations update_environment update_chart_values
update_ice flags m = bind (update_instances flags m) λ m1.
    bind (update_configurations flags m1)
      λ m2. bind (update_environment flags m2) λ m3. update_chart_values flags m3
