-- ===== src/Auxiliary.antt =====
-- internal/application/application.go: makeAuxiliaryMap and the unpacking of its data by aggregate. The
-- pods and the routes of an application, which other loops fill in, are left out.
pub mod LastSecret
mod Tests
use epinio.Base.{Bool, true, false, List, [], ◌∷◌, Option, none, some, if◌then◌else◌, get_or}
use epinio.Text.{Text, codes, ◌==◌}
use epinio.Text.Maps.{Map, lookup, insert}
use epinio.App.Bindings.{encode_configuration_key}
use epinio.Staging.{ApplicationStagingStatus}

pub record Secret : Type 0 where
  pub namespace : Text
  pub labels : Map Text
  pub content : Map Text

-- The data of an application; without a staging job its status is empty.
pub record AppData : Type 0 where
  pub scaling : Option Secret
  pub bound : Option Secret
  pub env : Option Secret
  pub services : Option Secret
  pub staging : Option ApplicationStagingStatus

abbrev pub no_data : AppData
no_data = record { scaling = none; bound = none; env = none; services = none; staging = none }

-- The switch on the area of a secret.
abbrev pub assign : Text → Secret → AppData → AppData
assign area s d =
    if area == codes "scaling"
    then record d { scaling = some s }
    else if area == codes "configuration"
    then record d { bound = some s }
    else if area == codes "environment"
    then record d { env = some s }
    else if area == codes "service"
    then record d { services = some s }
    else d

-- The area of a secret and the key of its application, if it has both labels.
abbrev pub area_and_key : Secret → Option (Text × Text)
area_and_key s = elim (lookup (codes "epinio.io/area") s.labels) [
  | none ↦ none
  | some area ↦ elim (lookup (codes "app.kubernetes.io/name") s.labels) [
    | none ↦ none
    | some app ↦ some (area, encode_configuration_key app s.namespace)
  ]
]

-- The body of the loop, for a secret with its area and key.
abbrev pub with_secret : Secret → Option (Text × Text) → Map AppData → Map AppData
with_secret s none result = result
with_secret s (some (area, key)) result =
    insert key (assign area s (get_or (lookup key result) no_data)) result

-- `makeAuxiliaryMap`
unfoldable pub make_auxiliary_map : List Secret → Map AppData → Map AppData
make_auxiliary_map [] result = result
make_auxiliary_map (s ∷ secrets) result =
    make_auxiliary_map secrets (with_secret s (area_and_key s) result)

-- `updateAppDataMapWithStagingJobStatus`
unfoldable pub update_app_data_map : Map ApplicationStagingStatus → Map AppData → Map AppData
update_app_data_map [] m = m
update_app_data_map ((key, status) ∷ statuses) m =
    update_app_data_map statuses
      (insert key (record (get_or (lookup key m) no_data) { staging = some status }) m)

-- The secrets that `aggregate` unpacks; an application without one of the first three is in deletion,
-- and is not shown.
pub record Unpacked : Type 0 where
  pub env : Secret
  pub bound : Secret
  pub scaling : Secret
  pub services : Option Secret

abbrev pub parts : Option Secret → Option Secret → Option Secret → Option Secret → Option Unpacked
parts none bound scaling services = none
parts (some env) none scaling services = none
parts (some env) (some bound) none services = none
parts (some env) (some bound) (some scaling) services =
    some (record { env = env; bound = bound; scaling = scaling; services = services })

unfoldable pub unpack : Option AppData → Option Unpacked
unpack none = none
unpack (some aux) = parts aux.env aux.bound aux.scaling aux.services
