-- ===== src/Auth/Tests.antt =====
-- Runs of internal/auth: one developer, the roles and actions of a small installation.
use epinio.Base.{true, false, ◌&&◌, ◌||◌, not, [], ◌∷◌, ◌≡◌, ◌↔◌, ◌⊎◌, refl, any, filter, is_some}
use mathlib.Core.List.{Memᴰ}
use epinio.Text.{Text, codes, ◌==◌, elem}
use epinio.Text.Affix.{is_empty}
use epinio.Text.Order.{IsUnique, sort_strings, set_of, ◌<◌}
use epinio.Text.Split.{lacking}
use epinio.Text.Maps.{Map, lookup}
use epinio.Auth.Action.{Action, Actions, init_actions}
use epinio.Auth.Action.Loading.{init_actions-error, first_error, ids}
use epinio.Auth.Role.{Role, admin_role, full_id, parse_role_id, role_ids}
use epinio.Auth.Role.Access.{Permits}
use epinio.Auth.Role.Ids.{parse_role_id-full_id}
use epinio.Auth.User.{
  User, add_namespace, remove_namespace, user_is_allowed, is_update_user_role_needed,
  role_namespaces, is_update_user_namespaces_needed, is_update_user_needed,
}
use epinio.Auth.User.Access.{deciding, user_is_allowed_iff}
use epinio.Auth.User.Members.{add_namespace_members, remove_namespace_members}
use epinio.Auth.User.Update.{is_update_user_namespaces_needed_members}

abbrev pub show_path : Text
show_path = codes "/api/v1/namespaces/:namespace/applications"

abbrev show : Action
show = record {
  id = codes "app_read";
  name = codes "App Read";
  depends_on = codes "namespace_read" ∷ [];
  endpoints =
      record {
        method = codes "GET";
        base_path = codes "/api/v1";
        path = codes "/namespaces/:namespace/applications";
      }
      ∷ [];
  routes = codes "Apps" ∷ [];
  ws_routes = [];
}

abbrev namespace_read : Action
namespace_read = record {
  id = codes "namespace_read";
  name = [];
  depends_on = [];
  endpoints = [];
  routes = codes "Namespaces" ∷ codes "Apps" ∷ [];
  ws_routes = [];
}

abbrev pub developer : Role
developer = record {
  id = codes "dev";
  name = codes "Developer";
  namespace = codes "team";
  actions = show ∷ [];
  is_default = false;
}

abbrev pub alice : User
alice = record {
  username = codes "alice";
  password = [];
  created_at = 7;
  roles = developer ∷ [];
  namespaces = codes "lab" ∷ [];
  gitconfigs = codes "main" ∷ [];
  role_ids = [];
  secret_name = codes "ralice";
}

abbrev pub root : User
root = record alice { roles = admin_role ∷ [] }

abbrev no_actions : Actions
no_actions = []

abbrev team_params : Map Text
team_params = (codes "namespace", codes "team") ∷ []

is_update_user_needed_test : is_update_user_needed alice ≡ (
  record alice { role_ids = codes "dev:team" ∷ []; namespaces = codes "lab" ∷ codes "team" ∷ [] },
  true,
)
unfolding is_update_user_needed is_update_user_role_needed is_update_user_namespaces_needed role_ids
    full_id set_of sort_strings ◌==◌ ◌<◌
is_update_user_needed_test = refl

user_is_allowed_iff_example : (user_is_allowed alice (codes "GET") show_path team_params ≡ true) ↔ (
    (r : Role) × Memᴰ r alice.roles
    × (r.namespace ≡ deciding alice team_params)
    × Permits r (codes "GET") show_path)
user_is_allowed_iff_example = user_is_allowed_iff alice (codes "GET") show_path team_params

add_namespace_members_example :
    ((a : Text)
      → elem a (add_namespace alice (codes "team")).namespaces
        ≡ (elem a alice.namespaces || (not (is_empty (codes "team")) && codes "team" == a)))
    × IsUnique (add_namespace alice (codes "team")).namespaces
    × (record (add_namespace alice (codes "team")) { namespaces = alice.namespaces } ≡ alice)
add_namespace_members_example = add_namespace_members alice (codes "team") (refl, tt)

remove_namespace_members_example :
    let (u', removed) = remove_namespace alice (codes "team") in
    ((a : Text) → elem a u'.namespaces ≡ (elem a alice.namespaces && not (codes "team" == a)))
    × (u'.roles ≡ filter (λ (r : Role). not (r.namespace == codes "team")) alice.roles)
    × (removed ≡ (
        elem (codes "team") alice.namespaces
        || any (λ (r : Role). r.namespace == codes "team") alice.roles))
    × IsUnique u'.namespaces
    × (record u' { namespaces = alice.namespaces; roles = alice.roles } ≡ alice)
remove_namespace_members_example = remove_namespace_members alice (codes "team") (refl, tt)

is_update_user_namespaces_needed_members_example :
    let (result, changed) = is_update_user_namespaces_needed alice.namespaces alice.roles in
    ((a : Text) → elem a result ≡ (elem a alice.namespaces || elem a (role_namespaces alice.roles)))
    × IsUnique result
    × ((changed ≡ true) ⊎ (result ≡ alice.namespaces))
is_update_user_namespaces_needed_members_example =
    is_update_user_namespaces_needed_members alice.namespaces alice.roles (refl, tt)

init_actions-error_example :
    (init_actions no_actions (show ∷ [])).1
    ≡ first_error (λ j. is_some (lookup j no_actions) || elem j (ids (show ∷ []))) (show ∷ [])
init_actions-error_example = init_actions-error no_actions (show ∷ [])

parse_role_id-full_id_example : parse_role_id (full_id developer) ≡ (codes "dev", codes "team")
parse_role_id-full_id_example =
    parse_role_id-full_id developer
      (lacking b':' (codes "dev") refl, lacking b':' (codes "team") refl)
