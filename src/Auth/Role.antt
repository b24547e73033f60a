-- ===== src/Auth/Role.antt =====
-- internal/auth/role.go: roles, their ids with an optional namespace, and how they are loaded.
pub mod Ids
pub mod Access
use epinio.Base.{
  ℕ, Bool, true, false, ◌&&◌, ◌||◌, List, [], ◌∷◌, ◌++◌, Option, none, some, ◌≡◌, any, find, map,
  if◌then◌else◌, get_or, Result, ok, err,
}
use epinio.Text.{Text, codes, ◌==◌, elem}
use epinio.Text.Affix.{is_empty, trim_space}
use epinio.Text.Split.{split}
use epinio.Text.Maps.{Map, lookup}
use epinio.Auth.Action.{Action, Actions, zero_action, action_is_allowed}

pub record Role : Type 0 where
  pub id : Text
  pub name : Text
  pub namespace : Text
  pub actions : List Action
  pub is_default : Bool

abbrev pub Roles : Type 0
Roles = List Role

abbrev pub admin : Text
admin = codes "admin"

abbrev pub colon : ℕ
colon = b':'

-- `AdminRole`.
abbrev pub admin_role : Role
admin_role = record {
  id = admin;
  name = codes "Admin Role";
  namespace = [];
  actions = [];
  is_default = false;
}

-- `Default`, whose zero role on failure is `none` here.
pub default_role : Roles → Option Role
default_role roles = find (λ r. r.is_default) roles

-- The id of a role as it is written into a user's secret.
unfoldable pub full_id : Role → Text
full_id r = if is_empty r.namespace then r.id else r.id ++ (colon ∷ r.namespace)

unfoldable pub role_ids : Roles → List Text
unfolding full_id
role_ids roles = map full_id roles

pub find_by_id_and_namespace : Roles → Text → Text → Option Role
find_by_id_and_namespace roles id namespace =
    find (λ r. r.id == id && r.namespace == namespace) roles

unfoldable pub find_by_id : Roles → Text → Option Role
unfolding find_by_id_and_namespace
find_by_id roles id = find_by_id_and_namespace roles id []

unfoldable pub role_is_allowed : Role → Text → Text → Bool
role_is_allowed r method path =
    r.id == admin || any (λ a. action_is_allowed a method path) r.actions

unfoldable pub roles_is_allowed : Roles → Text → Text → Bool
roles_is_allowed roles method path = any (λ r. role_is_allowed r method path) roles

-- `strconv.ParseBool`.
pub parse_bool : Text → Option Bool
parse_bool s =
    if elem s (codes "1" ∷ codes "t" ∷ codes "T" ∷ codes "true" ∷ codes "TRUE" ∷ codes "True" ∷ [])
    then some true
    else if elem s
        (codes "0" ∷ codes "f" ∷ codes "F" ∷ codes "false" ∷ codes "FALSE" ∷ codes "False" ∷ [])
    then some false
    else none

-- The loop of `NewRole`: an unknown action is logged and skipped.
pub known_actions : Actions → List Text → List Action
known_actions m [] = []
known_actions m (id ∷ ids) = elim (lookup id m) [
  | none ↦ known_actions m ids
  | some a ↦ a ∷ known_actions m ids
]

-- The role that `NewRole` returns, scoped to no namespace.
global_role : Text → Text → List Action → Bool → Role
global_role id name actions flag = record {
  id = id;
  name = name;
  namespace = [];
  actions = actions;
  is_default = flag;
}

-- `NewRole`, over `ActionsMap`; the error carries the text that is no Boolean.
pub new_role : Actions → Text → Text → Text → List Text → Result Text Role
unfolding parse_bool known_actions global_role
new_role m id name default_val action_ids =
    let actions = get_or (lookup (codes "default") m) zero_action ∷ known_actions m action_ids in
    if is_empty default_val
    then ok (global_role id name actions false)
    else elim (parse_bool default_val) [
      | none ↦ err default_val
      | some flag ↦ ok (global_role id name actions flag)
    ]

abbrev newline : ℕ
newline = 10

-- `newRoleFromConfigMap`, from the config map's data.
pub new_role_from_config_map : Actions → Map Text → Result Text Role
unfolding new_role
new_role_from_config_map m config =
    let action_ids : List Text = elim (lookup (codes "actions") config) [
      | none ↦ []
      | some text ↦ split (trim_space text) newline
    ] in
    let field = λ (key : Text). get_or (lookup key config) [] in
    new_role m (field (codes "id")) (field (codes "name")) (field (codes "default")) action_ids

-- `ParseRoleID`: the id and the namespace; what follows a second colon is dropped.
pub parse_role_id : Text → Text × Text
parse_role_id role_id = elim (split role_id colon) [
  | [] ↦ ([], [])
  | id ∷ [] ↦ (id, [])
  | id ∷ namespace ∷ _ ↦ (id, namespace)
]
