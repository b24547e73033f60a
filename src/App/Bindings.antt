-- ===== src/App/Bindings.antt =====
-- internal/application/configurations.go and services.go: which configurations and services are
-- bound to an application, and the maps from those to the applications.
pub mod Keys
pub mod Inverted
pub mod Stored
use epinio.Base.{
  ℕ, Bool, true, false, List, [], ◌∷◌, ◌++◌, Option, none, some, ◌≡◌, if◌then◌else◌, Result, ok,
  err, get_or, any,
}
use epinio.Text.{Text, codes, ◌==◌, elem}
use epinio.Text.Split.{split, join}
use epinio.Text.Order.{sort_strings}
use epinio.Text.Maps.{Map, lookup, insert, delete, keys}
use epinio.App.Store.{
  AppRef, AppSecret, ApiError, Kube, Area, configuration, service, area_label, update, contents_of,
}

-- ASCII NUL, which separates a name from its namespace in a key.
abbrev pub nul : ℕ
nul = 0

unfoldable pub encode_configuration_key : Text → Text → Text
encode_configuration_key name namespace = name ++ nul ∷ namespace

-- `parts[0], parts[1]`; `none` is the panic where there is one part only.
abbrev two_parts : List Text → Option (Text × Text)
two_parts [] = none
two_parts (a ∷ []) = none
two_parts (a ∷ b ∷ rest) = some (a, b)

pub decode_configuration_key : Text → Option (Text × Text)
decode_configuration_key key = two_parts (split key nul)

unfoldable pub service_key : Text → Text → Text
service_key name namespace = name ++ nul ∷ namespace

pub decode_service_key : Text → Option (Text × Text)
decode_service_key key = two_parts (split key nul)

abbrev pub label : Text → AppSecret → Text
label key s = get_or (lookup key s.labels) []

abbrev pub app_of : AppSecret → Text
app_of = label (codes "app.kubernetes.io/name")

abbrev pub part_of : AppSecret → Text
part_of = label (codes "app.kubernetes.io/part-of")

abbrev pub bound_in : AppSecret → List Text
bound_in s = keys (get_or s.contents [])

-- The loops of `BoundAppsNamesFor` and `ServicesBoundAppsNamesFor` over the listed bindings.
pub apps_for : Text → List AppSecret → List Text
apps_for name [] = []
apps_for name (s ∷ rest) =
    if any (λ bound. bound == name) (bound_in s)
    then app_of s ∷ apps_for name rest
    else apps_for name rest

-- `result[key] = append(result[key], app)`.
pub append_at : Text → Text → Map (List Text) → Map (List Text)
append_at key app m = insert key (get_or (lookup key m) [] ++ app ∷ []) m

-- The loop over the names that one binding holds.
pub add_binding : (Text → Text) → Text → List Text → Map (List Text) → Map (List Text)
unfolding append_at
add_binding key_of app [] m = m
add_binding key_of app (name ∷ names) m =
    add_binding key_of app names (append_at (key_of name) app m)

-- The loops of `BoundAppsNames`, `ServicesBoundAppsNames` and the two variants for namespaces,
-- where `key_for` makes the key of a name and a namespace.
unfoldable pub apps_names :
    (Text → Text → Text) → List AppSecret → Map (List Text) → Map (List Text)
unfolding add_binding
apps_names key_for [] m = m
apps_names key_for (s ∷ rest) m =
    apps_names key_for rest
      (add_binding (λ name. key_for name (part_of s)) (app_of s) (bound_in s) m)

-- The selector of the bindings of an area.
pub selector : Area → Text
selector area =
    codes "epinio.io/area="
    ++ (area_label area
        ++ codes ",app.kubernetes.io/component=application,app.kubernetes.io/managed-by=epinio")

selector_in : Area → List Text → Text
unfolding selector
selector_in area namespaces =
    selector area
    ++ (codes ",app.kubernetes.io/part-of in (" ++ (join namespaces (codes ",") ++ codes ")"))

-- `list` is the call that lists the secrets of a namespace, or of all, by a label selector.
module _ {W : Type 0} (list : Text → Text → W → Result ApiError (List AppSecret)) where
  abbrev pub listed : {A : Type 0} → Text → Text → (List AppSecret → A) → W → Result ApiError A
  listed namespace by f w = elim (list namespace by w) [ err e ↦ err e | ok found ↦ ok (f found) ]

  pub bound_apps_names_for : Text → Text → W → Result ApiError (List Text)
  bound_apps_names_for namespace name = listed namespace (selector configuration) (apps_for name)

  pub services_bound_apps_names_for : Text → Text → W → Result ApiError (List Text)
  services_bound_apps_names_for namespace name = listed namespace (selector service) (apps_for name)

  unfoldable pub bound_apps_names : Text → W → Result ApiError (Map (List Text))
  bound_apps_names namespace =
      listed namespace (selector configuration)
        (λ found. apps_names encode_configuration_key found [])

  unfoldable pub services_bound_apps_names : Text → W → Result ApiError (Map (List Text))
  services_bound_apps_names namespace =
      listed namespace (selector service) (λ found. apps_names service_key found [])

  -- No namespaces give no bindings, without a call.
  pub bound_apps_names_for_namespaces : List Text → W → Result ApiError (Map (List Text))
  bound_apps_names_for_namespaces [] w = ok []
  bound_apps_names_for_namespaces (n ∷ ns) w =
      listed [] (selector_in configuration (n ∷ ns))
        (λ found. apps_names encode_configuration_key found []) w

  pub services_bound_apps_names_for_namespaces : List Text → W → Result ApiError (Map (List Text))
  services_bound_apps_names_for_namespaces [] w = ok []
  services_bound_apps_names_for_namespaces (n ∷ ns) w =
      listed [] (selector_in service (n ∷ ns)) (λ found. apps_names service_key found []) w

-- The loop that adds names, with no value.
pub bind_all : List Text → Map Text → Map Text
bind_all [] m = m
bind_all (name ∷ names) m = bind_all names (insert name [] m)

pub unbind_all : List Text → Map Text → Map Text
unbind_all [] m = m
unbind_all (name ∷ names) m = unbind_all names (delete name m)

-- The change of `BoundConfigurationsSet` and `BoundServicesSet`.
pub bind : Bool → List Text → Map Text → Map Text
bind replace names m = bind_all names (if replace then [] else m)

-- `BoundConfigurationNamesFromSecret` and `BoundServiceNamesFromSecret`, from the data.
pub bound_names : Map Text → List Text
bound_names m = sort_strings (keys m)

-- The functions for configurations and for services differ in the secret that holds the names.
module _ {W : Type 0} (api : Kube W) (sha1_hex : Text → Text) where
  pub names_of : Area → AppRef → W → Result ApiError (List Text) × W
  unfolding bound_names
  names_of area ref w =
      let (r, w') = contents_of api sha1_hex area ref w in
      elim r [ err e ↦ (err e, w') | ok m ↦ (ok (bound_names m), w') ]

  unfoldable pub names_set : Area → AppRef → List Text → Bool → W → Result ApiError (Unit {0}) × W
  names_set area ref names replace = update api sha1_hex area ref (bind replace names)

  unfoldable pub names_unset : Area → AppRef → List Text → W → Result ApiError (Unit {0}) × W
  names_unset area ref names = update api sha1_hex area ref (unbind_all names)

  abbrev pub bound_configuration_names : AppRef → W → Result ApiError (List Text) × W
  bound_configuration_names = names_of configuration

  abbrev pub bound_service_names : AppRef → W → Result ApiError (List Text) × W
  bound_service_names = names_of service

  abbrev pub bound_configurations_set :
      AppRef → List Text → Bool → W → Result ApiError (Unit {0}) × W
  bound_configurations_set = names_set configuration

  abbrev pub bound_services_set : AppRef → List Text → Bool → W → Result ApiError (Unit {0}) × W
  bound_services_set = names_set service

  abbrev pub bound_configurations_unset : AppRef → List Text → W → Result ApiError (Unit {0}) × W
  bound_configurations_unset = names_unset configuration

  abbrev pub bound_services_unset : AppRef → Text → W → Result ApiError (Unit {0}) × W
  bound_services_unset ref name = names_unset service ref (name ∷ [])
