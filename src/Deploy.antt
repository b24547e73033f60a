-- ===== src/Deploy.antt =====
-- getValuesYAML of internal/helm/helm.go: the values that the chart of an application is deployed
-- with, before they are printed as YAML.
pub mod Typed
pub mod Agreement
mod Tests
use epinio.Base.{
  Bool, true, false, List, [], ◌∷◌, ◌++◌, Option, none, some, ◌≡◌, if◌then◌else◌, Result, ok, err,
  get_or, eqb, map,
}
use epinio.Text.{Text, codes}
use epinio.Text.Affix.{is_empty}
use epinio.Text.Maps.{Map, lookup, insert}
use epinio.Text.Order.{◌<◌, set_of}
use epinio.Integers.{ℤ, itoa}
use epinio.Routing.{Route, to_string, from_string}
use epinio.Domain.{match_do}
use epinio.Settings.{ChartSetting, Floats, SettingError, Value, validate_field}

-- What `viper` has of the configuration of the server.
pub record ServerConfig : Type 0 where
  pub ingress_class_name : Text
  pub gateway_class_name : Text
  pub tls_issuer : Text

pub record ConfigParameter : Type 0 where
  pub name : Text
  pub path : Text

pub record ChartParameters : Type 0 where
  pub name : Text
  pub image_url : Text
  pub username : Text
  pub instances : ℤ
  pub stage_id : Text
  pub environment : Map Text
  pub configurations : List ConfigParameter
  pub routes : List Text
  pub domains : Option (Map Text)
  pub start : Option ℤ
  pub settings : Map Text

pub record AppChart : Type 0 where
  pub settings : Map ChartSetting
  pub values : Map Text

pub record RouteParam : Type 0 where
  pub id : Text
  pub domain : Text
  pub path : Text
  pub secret : Text

pub record EpinioParam : Type 0 where
  pub app_name : Text
  pub configurations : List Text
  pub config_paths : List ConfigParameter
  pub env : List (Text × Text)
  pub image_url : Text
  pub ingress : Text
  pub gateway : Text
  pub replica_count : ℤ
  pub routes : List RouteParam
  pub stage_id : Text
  pub start : Text
  pub tls_issuer : Text
  pub username : Text

-- `user` is a map that is nil without custom values.
pub record ChartParam (F : Type 0) : Type 0 where
  pub epinio : EpinioParam
  pub chart : Map Text
  pub user : Option (Map (Value F))

pub data DeployError : Type 0 where
  setting_unknown : Text → DeployError
  bad_setting : SettingError → DeployError

-- `EnvVariableMap.List`, with `sort.Sort` on the names.
unfoldable pub insert_variable : Text × Text → List (Text × Text) → List (Text × Text)
insert_variable v [] = v ∷ []
insert_variable v (w ∷ ws) = if v.0 < w.0 then v ∷ w ∷ ws else w ∷ insert_variable v ws

unfoldable pub env_list : Map Text → List (Text × Text)
unfolding insert_variable
env_list [] = []
env_list (v ∷ m) = insert_variable v (env_list m)

-- `UniqueStrings` of helpers/string.go, and the same loop over the configurations.
abbrev pub unique_strings : List Text → List Text
unique_strings xs = set_of [] xs

-- The values for one desired route; an error of the match counts as no secret.
unfoldable pub route_param : Option (Map Text) → Text → RouteParam
route_param domains desired =
    let r = from_string desired in
    record {
      id = map (λ c. if eqb c b'/' then b'.' else c) (to_string r);
      domain = r.domain;
      path = r.path;
      secret = get_or (match_do r.domain domains) [];
    }

abbrev shown_start : Option ℤ → Text
shown_start none = []
shown_start (some n) = itoa n

abbrev pub chart_param :
    {F : Type 0} → ServerConfig → AppChart → ChartParameters → Option (Map (Value F)) → ChartParam F
chart_param config chart p user = record {
  epinio = record {
    app_name = p.name;
    configurations = unique_strings (map (λ (c : ConfigParameter). c.name) p.configurations);
    config_paths = p.configurations;
    env = env_list p.environment;
    image_url = p.image_url;
    ingress = config.ingress_class_name;
    gateway = config.gateway_class_name;
    replica_count = p.instances;
    routes = map (route_param p.domains) p.routes;
    stage_id = p.stage_id;
    start = shown_start p.start;
    tls_issuer = config.tls_issuer;
    username = p.username;
  };
  chart = chart.values;
  user = user;
}

module _ {F : Type 0} (floats : Floats F) where
  -- One custom value with its type.
  unfoldable pub typed_value : Map ChartSetting → Text → Text → Result DeployError (Value F)
  typed_value decl field value = elim (lookup field decl) [
    | none ↦ err (setting_unknown field)
    | some spec ↦ elim (validate_field floats field value spec) [
      | err e ↦ err (bad_setting e)
      | ok v ↦ ok v
    ]
  ]

  -- The loop over the custom values.
  unfoldable pub user_values :
      Map ChartSetting → Map Text → Map (Value F) → Result DeployError (Map (Value F))
  unfolding typed_value
  user_values decl [] user = ok user
  user_values decl ((field, value) ∷ rest) user = elim (typed_value decl field value) [
    | err e ↦ err e
    | ok v ↦ user_values decl rest (insert field v user)
  ]

  unfoldable pub user_of : Map ChartSetting → Map Text → Result DeployError (Option (Map (Value F)))
  unfolding user_values
  user_of decl [] = ok none
  user_of decl (s ∷ settings) = elim (user_values decl (s ∷ settings) []) [
    | err e ↦ err e
    | ok user ↦ ok (some user)
  ]

  unfoldable pub values_of :
      ServerConfig → AppChart → ChartParameters → Result DeployError (ChartParam F)
  unfolding user_of env_list route_param
  values_of config chart p = elim (user_of chart.settings p.settings) [
    | err e ↦ err e
    | ok user ↦ ok (chart_param config chart p user)
  ]
