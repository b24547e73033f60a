-- ===== src/App/Environment.antt =====
-- internal/application/env.go: the environment that users give to an application, and what bound
-- configurations add.
pub mod Stored
use epinio.Base.{
  Bool, true, false, List, [], ◌∷◌, ◌++◌, Option, none, some, ◌≡◌, if◌then◌else◌, Result, ok, err,
  get_or,
}
use epinio.Text.{Text, codes}
use epinio.App.Bindings.{bound_configuration_names}
use epinio.Text.Maps.{Map, insert, delete, keys}
use epinio.App.Store.{
  AppRef, AppSecret, ApiError, Kube, environment, configuration, update, contents_of,
}
use epinio.Text.Order.{sort_strings}

-- The loop that writes every entry of a map into another.
pub insert_all {ℓ} : {V : Type ℓ} → Map V → Map V → Map V
insert_all [] m = m
insert_all ((k, v) ∷ rest) m = insert_all rest (insert k v m)

-- The change of `EnvironmentSet`.
pub assign : Bool → Map Text → Map Text → Map Text
assign replace assignments m = insert_all assignments (if replace then [] else m)

-- The entries that one configuration adds, each under the configuration's name.
prefixed : Text → Map Text → Map Text → Map Text
prefixed name [] m = m
prefixed name ((key, value) ∷ rest) m =
    prefixed name rest (insert (name ++ codes "/" ++ key) value m)

module _ {W : Type 0} (api : Kube W) (sha1_hex : Text → Text) where
  pub environment_of : AppRef → W → Result ApiError (Map Text) × W
  environment_of = contents_of api sha1_hex environment

  -- `EnvironmentNames`, whose order the code leaves open.
  pub environment_names : AppRef → W → Result ApiError (List Text) × W
  environment_names ref w =
      let (r, w') = contents_of api sha1_hex environment ref w in
      elim r [ err e ↦ (err e, w') | ok m ↦ (ok (keys m), w') ]

  unfoldable pub environment_set : AppRef → Map Text → Bool → W → Result ApiError (Unit {0}) × W
  environment_set ref assignments replace =
      update api sha1_hex environment ref (assign replace assignments)

  unfoldable pub environment_unset : AppRef → Text → W → Result ApiError (Unit {0}) × W
  environment_unset ref name = update api sha1_hex environment ref (delete name)

  -- The loop of `ConfigurationEnvironment`: a configuration that cannot be read is skipped.
  pub collect : AppRef → List Text → Map Text → W → Map Text
  unfolding prefixed
  collect ref [] m w = m
  collect ref (name ∷ names) m w = elim (api.get_secret ref.namespace name w) [
    | err e ↦ collect ref names m w
    | ok secret ↦ collect ref names (prefixed name (get_or secret.contents []) m) w
  ]

  configuration_environment : AppRef → W → Result ApiError (Map Text) × W
  unfolding collect
  configuration_environment ref w =
      let (r, w') = bound_configuration_names api sha1_hex ref w in
      elim r [ err e ↦ (err e, w') | ok names ↦ (ok (collect ref names [] w'), w') ]

  -- `GroupedEnvironment`: the user's part and the part of the services.
  pub grouped_environment : AppRef → W → Result ApiError (Map Text × Map Text) × W
  unfolding environment_of configuration_environment
  grouped_environment ref w =
      let (r, w') = environment_of ref w in
      elim r [
        | err e ↦ (err e, w')
        | ok user ↦
            let (q, w'') = configuration_environment ref w' in
            elim q [ err e ↦ (err e, w'') | ok services ↦ (ok (user, services), w'') ]
      ]
