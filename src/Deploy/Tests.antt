-- ===== src/Deploy/Tests.antt =====
-- Runs of ValidateField, ValidateCV and getValuesYAML.
use epinio.Glob.{match, parts}
use epinio.Text.Split.{split, join, cut}
use epinio.Domain.{match_do}
use epinio.Routing.{to_string, from_string}
use epinio.Text.Affix.{trim_suffix, has_suffix}
use epinio.Base.{
  true, false, Bool, [], ◌∷◌, ◌++◌, Option, none, some, ◌≡◌, ◌≢◌, ◌↔◌, refl, ok, err, All,
  if◌then◌else◌,
}
use epinio.Text.{Text, codes, ◌==◌}
use epinio.Text.Order.{set_of, ◌<◌}
use epinio.Text.Maps.{Map, lookup, insert}
use epinio.Integers.{ℤ, pos, parse_int64, ltb_int}
use epinio.Settings.{
  ChartSetting, Floats, not_known, too_large, not_integer, integer, number, strip_indices,
  nested_map, validate_range, validate_field, validate_cv, bounded,
}
use epinio.Settings.Nested.{IsNested, nested_map_iff}
use epinio.Settings.Fields.{WithinBound, validate_range_iff}
use epinio.Settings.Checked.{Accepted, validate_cv_iff}
use epinio.Deploy.{
  ServerConfig, AppChart, ChartParameters, ChartParam, chart_param, DeployError, env_list,
  route_param, values_of,
}
use epinio.Deploy.Agreement.{validate_cv-values_of, nested_setting_refused}

-- Numbers without a fraction, and a value that is not comparable.
abbrev whole : Floats (Option ℤ)
whole = record {
  parse_float = λ s.
      if s == codes "NaN"
      then some none
      else elim (parse_int64 s) [ none ↦ none | some i ↦ some (some i) ];
  float_of_int = λ i. some i;
  less = less_of;
}
  where
    less_of : Option ℤ → Option ℤ → Bool
    less_of none b = false
    less_of (some a) none = false
    less_of (some a) (some b) = ltb_int a b

abbrev port : ChartSetting
port = record {
  type = codes "integer";
  minimum = codes "1";
  maximum = codes "65535";
  enum = codes "80" ∷ [];
}

abbrev rate : ChartSetting
rate = record { type = codes "number"; minimum = codes "0"; maximum = codes "1"; enum = [] }

abbrev ingress : ChartSetting
ingress = record { type = codes "map"; minimum = []; maximum = []; enum = [] }

abbrev declared : Map ChartSetting
declared = (codes "port", port) ∷ (codes "rate", rate) ∷ (codes "ingress", ingress) ∷ []

strip_indices_test :
    (strip_indices (codes "hosts[0].port") ≡ codes "hosts.port")
    × (strip_indices (codes "hosts[10].port") ≡ codes "hosts[10].port")
unfolding strip_indices
strip_indices_test = (refl, refl)

-- The enumeration of an integer has no effect, and no bound holds for a number that is not one.
validate_field_test :
    (validate_field whole (codes "port") (codes "443") port ≡ ok (integer (pos 443)))
    × (validate_field whole (codes "port") (codes "70000") port
        ≡ err (too_large (codes "port") (codes "70000")))
    × (validate_field whole (codes "port") (codes "http") port
        ≡ err (not_integer (codes "port") (codes "http")))
    × (validate_field whole (codes "rate") (codes "NaN") rate ≡ ok (number none))
unfolding validate_field ◌==◌ parse_int64 bounded ltb_int
validate_field_test = (refl, refl, refl, refl)

abbrev custom : Map Text
custom = (codes "port", codes "8080") ∷ []

validate_cv_test :
    (validate_cv whole custom declared ≡ [])
    × (validate_cv whole
          ((codes "ingress.tls.host", codes "x") ∷ (codes "other", codes "y") ∷ [])
          declared
        ≡ not_known (codes "other") ∷ [])
unfolding validate_cv lookup ◌==◌ strip_indices parse_int64 bounded ltb_int split join
validate_cv_test = (refl, refl)

abbrev config : ServerConfig
config = record {
  ingress_class_name = codes "traefik";
  gateway_class_name = [];
  tls_issuer = codes "private-ca";
}

abbrev chart : AppChart
chart = record { settings = declared; values = [] }

abbrev parameters : Map Text → ChartParameters
parameters settings = record {
  name = codes "shop";
  image_url = codes "registry/shop";
  username = codes "alice";
  instances = pos 2;
  stage_id = codes "5";
  environment = (codes "B", codes "2") ∷ (codes "A", codes "1") ∷ [];
  configurations =
      record { name = codes "db"; path = codes "/db" }
      ∷ record { name = codes "db"; path = codes "/old" }
      ∷ [];
  routes = codes "shop.example.org/api" ∷ [];
  domains = some ((codes "*.example.org", codes "tls") ∷ []);
  start = none;
  settings = settings;
}

abbrev deployed : ChartParam (Option ℤ)
deployed =
    chart_param config chart (parameters custom) (some ((codes "port", integer (pos 8080)) ∷ []))

values_of_test : values_of whole config chart (parameters custom) ≡ ok deployed
unfolding values_of lookup ◌==◌ validate_field parse_int64 bounded ltb_int insert
values_of_test = refl

params_test :
    (deployed.epinio.configurations ≡ codes "db" ∷ [])
    × (deployed.epinio.env ≡ (codes "A", codes "1") ∷ (codes "B", codes "2") ∷ [])
    × (deployed.epinio.routes
        ≡ record {
          id = codes "shop.example.org.api";
          domain = codes "shop.example.org";
          path = codes "/api";
          secret = codes "tls";
        }
          ∷ [])
unfolding env_list set_of ◌==◌ ◌<◌ route_param to_string match_do trim_suffix lookup has_suffix
    from_string cut match parts
params_test = (refl, refl, refl)

-- A value below the map `ingress`.
abbrev below_map : Map Text
below_map = (codes "ingress.host", codes "x") ∷ []

host_IsNested : IsNested declared (codes "ingress.host")
unfolding lookup ◌==◌
host_IsNested = (codes "ingress", codes "host", refl, refl)

key_test :
    (strip_indices (codes "ingress.host") ≡ codes "ingress.host")
    × (lookup (codes "ingress.host") declared ≡ none)
    × (strip_indices (codes "port") ≡ codes "port")
    × (lookup (codes "port") declared ≡ some port)
unfolding strip_indices lookup ◌==◌
key_test = (refl, refl, refl, refl)

validate_range_iff_example :
    (validate_range whole (some (pos 80)) (codes "port") (codes "80") (codes "1") (codes "100")
      ≡ none)
    ↔ (WithinBound whole (codes "1") (λ b. whole.less (some (pos 80)) b)
        × WithinBound whole (codes "100") (λ b. whole.less b (some (pos 80))))
validate_range_iff_example =
    validate_range_iff whole (some (pos 80)) (codes "port") (codes "80") (codes "1") (codes "100")

nested_map_iff_example :
    (nested_map declared (codes "ingress.host") ≡ true) ↔ IsNested declared (codes "ingress.host")
nested_map_iff_example = nested_map_iff declared (codes "ingress.host")

validate_cv_iff_example :
    (validate_cv whole custom declared ≡ []) ↔ All (Accepted whole declared) custom
validate_cv_iff_example = validate_cv_iff whole custom declared

no_map : codes "integer" ≢ codes "map"
no_map e = cc

validate_cv-values_of_example :
    (c : ChartParam (Option ℤ)) × (values_of whole config chart (parameters custom) ≡ ok c)
validate_cv-values_of_example =
    validate_cv-values_of whole config chart (parameters custom)
      ((key_test.2, (port, key_test.3, no_map)), tt) validate_cv_test.0

nested_setting_refused_example :
    (validate_cv whole (custom ++ below_map) declared ≡ [])
    × ((e : DeployError) × (values_of whole config chart (parameters (custom ++ below_map))
          ≡ err e))
nested_setting_refused_example =
    nested_setting_refused whole config chart (parameters (custom ++ below_map)) custom []
      (codes "ingress.host") (codes "x") refl validate_cv_test.0 key_test.0 key_test.1 host_IsNested
