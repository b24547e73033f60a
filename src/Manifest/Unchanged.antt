-- ===== src/Manifest/Unchanged.antt =====
-- internal/manifest/manifest.go: the updates that leave the origin alone.
use epinio.Base.{[], ◌≡◌, ◌∙◌, ok, bind-ok}
use epinio.Text.{codes}
use epinio.Manifest.{ApplicationManifest, Flags, bad_env, bad_chart_value}
use epinio.Manifest.Options.{
  option, update_routes, update_builder, update_app_chart, update_name, update_instances,
  update_configurations, update_environment, update_chart_values, update_ice, instances, assigned,
}

-- The updates that leave the origin alone.
module _ {E : Type 0} (flags : Flags E) where
  pub builder-origin :
      (m result : ApplicationManifest)
      → update_builder flags m ≡ ok result
      → result.origin ≡ m.origin
  unfolding update_builder
  builder-origin m result e =
      let (x, a, made) = bind-ok (option (flags.get_string (codes "builder-image"))) _ result e in
      cc

  pub app_chart-origin :
      (m result : ApplicationManifest)
      → update_app_chart flags m ≡ ok result
      → result.origin ≡ m.origin
  unfolding update_app_chart
  app_chart-origin m result e =
      let (x, a, made) = bind-ok (option (flags.get_string (codes "app-chart"))) _ result e in cc

  pub name-origin :
      (m result : ApplicationManifest) → update_name flags m ≡ ok result → result.origin ≡ m.origin
  unfolding update_name
  name-origin m result e =
      let (x, a, made) = bind-ok (option (flags.get_string (codes "name"))) _ result e in cc

  instances-origin :
      (m result : ApplicationManifest)
      → update_instances flags m ≡ ok result
      → result.origin ≡ m.origin
  unfolding update_instances
  instances-origin m result e = let (x, a, made) = bind-ok (instances flags m) _ result e in cc

  configurations-origin :
      (m result : ApplicationManifest)
      → update_configurations flags m ≡ ok result
      → result.origin ≡ m.origin
  unfolding update_configurations
  configurations-origin m result e =
      let (x, a, made) = bind-ok (option (flags.get_string_slice (codes "bind"))) _ result e in cc

  pub routes-origin :
      (m result : ApplicationManifest)
      → update_routes flags m ≡ ok result
      → result.origin ≡ m.origin
  unfolding update_routes
  routes-origin m result e =
      let (routes, a, e1) = bind-ok (option (flags.get_string_slice (codes "route"))) _ result e in
      let (clear, b, made) = bind-ok (option (flags.get_bool (codes "clear-routes"))) _ result e1 in
      cc

  environment-origin :
      (m result : ApplicationManifest)
      → update_environment flags m ≡ ok result
      → result.origin ≡ m.origin
  unfolding update_environment
  environment-origin m result e =
      let (assignments, a, e1) =
        bind-ok (option (flags.get_string_slice (codes "env"))) _ result e in
      let (values, b, made) = bind-ok (assigned bad_env assignments []) _ result e1 in cc

  chart_values-origin :
      (m result : ApplicationManifest)
      → update_chart_values flags m ≡ ok result
      → result.origin ≡ m.origin
  unfolding update_chart_values
  chart_values-origin m result e =
      let (assignments, a, e1) =
        bind-ok (option (flags.get_string_slice (codes "chart-value"))) _ result e in
      let (values, b, made) = bind-ok (assigned bad_chart_value assignments []) _ result e1 in cc

  pub ice-origin :
      (m result : ApplicationManifest) → update_ice flags m ≡ ok result → result.origin ≡ m.origin
  unfolding update_ice
  ice-origin m result e =
      let (m1, a, e1) = bind-ok (update_instances flags m) _ result e in
      let (m2, b, e2) = bind-ok (update_configurations flags m1) _ result e1 in
      let (m3, c, e3) = bind-ok (update_environment flags m2) _ result e2 in
      chart_values-origin m3 result e3
      ∙ (environment-origin m2 m3 c ∙ (configurations-origin m1 m2 b ∙ instances-origin m m1 a))
