-- ===== src/Auth/User.antt =====
-- internal/auth/user.go: a user, the changes of its namespaces and gitconfigs, and what it may do.
pub mod Members
pub mod Access
pub mod Update
use epinio.Base.{
  ℕ, Bool, true, false, ◌&&◌, ◌||◌, not, List, [], ◌∷◌, ◌++◌, Option, none, some, ◌≡◌, any, filter,
  length, eqb, if◌then◌else◌, is_some,
}
use epinio.Text.{Text, codes, ◌==◌, elem}
use epinio.Text.Affix.{is_empty}
use epinio.Text.Order.{sort_strings, set_of}
use epinio.Text.Maps.{Map, lookup}
use epinio.Auth.Role.{Role, Roles, admin, find_by_id, role_ids, roles_is_allowed}

pub record User : Type 0 where
  pub username : Text
  pub password : Text
  pub created_at : ℕ
  pub roles : Roles
  pub namespaces : List Text
  pub gitconfigs : List Text
  pub role_ids : List Text
  pub secret_name : Text

-- The loop of `AddNamespace` and `AddGitconfig`: no empty name, and no second copy.
add_name : Text → List Text → List Text
add_name x xs = if is_empty x then xs else if elem x xs then xs else xs ++ x ∷ []

-- The loop of `RemoveNamespace` and `RemoveGitconfig` over the names: the rest, and the flag.
pub remove_name : Text → List Text → List Text × Bool
remove_name x xs = (filter (λ y. not (y == x)) xs, any (λ y. y == x) xs)

pub add_namespace : User → Text → User
unfolding add_name
add_namespace u namespace = record u { namespaces = add_name namespace u.namespaces }

-- A role that is scoped to the namespace goes with it, and counts as removed too.
unfoldable pub remove_namespace : User → Text → User × Bool
unfolding remove_name
remove_namespace u namespace =
    let (namespaces, removed) = remove_name namespace u.namespaces in
    (
      record u {
        namespaces = namespaces;
        roles = filter (λ (r : Role). not (r.namespace == namespace)) u.roles;
      },
      removed || any (λ (r : Role). r.namespace == namespace) u.roles,
    )

pub add_gitconfig : User → Text → User
unfolding add_name
add_gitconfig u gitconfig = record u { gitconfigs = add_name gitconfig u.gitconfigs }

pub remove_gitconfig : User → Text → User × Bool
unfolding remove_name
remove_gitconfig u gitconfig =
    let (gitconfigs, removed) = remove_name gitconfig u.gitconfigs in
    (record u { gitconfigs = gitconfigs }, removed)

pub filter_roles_by_namespace : Roles → Text → Roles
filter_roles_by_namespace roles namespace = filter (λ r. r.namespace == namespace) roles

abbrev no_roles : Roles → Bool
no_roles [] = true
no_roles (r ∷ rs) = false

-- `User.IsAllowed`: the roles of the request's namespace decide if there is one, the roles without
-- a namespace otherwise.
unfoldable pub user_is_allowed : User → Text → Text → Map Text → Bool
unfolding filter_roles_by_namespace
user_is_allowed u method full_path params =
    let global = roles_is_allowed (filter_roles_by_namespace u.roles []) method full_path in
    elim (lookup (codes "namespace") params) [
      | none ↦ global
      | some namespace ↦
          let scoped = filter_roles_by_namespace u.roles namespace in
          if no_roles scoped then global else roles_is_allowed scoped method full_path
    ]

unfoldable pub has_global_role : User → Bool
has_global_role u = any (λ (r : Role). is_empty r.namespace && not (r.id == codes "user")) u.roles

unfoldable pub is_admin : User → Bool
is_admin u = is_some (find_by_id u.roles admin)

-- The comparing loop of `isUpdateUserRoleNeeded`, over slices of one length.
abbrev differ : List Text → List Text → Bool
differ [] ys = false
differ (x ∷ xs) [] = true
differ (x ∷ xs) (y ∷ ys) = if x == y then differ xs ys else true

-- `isUpdateUserRoleNeeded`; past the first test both slices have been sorted in place.
unfoldable pub is_update_user_role_needed : List Text → List Text → List Text × Bool
is_update_user_role_needed previous actual =
    if not (eqb (length previous) (length actual))
    then (actual, true)
    else let previous' = sort_strings previous in
      let actual' = sort_strings actual in
      if differ previous' actual' then (actual', true) else (previous', false)

-- The namespaces that the roles name.
abbrev pub role_namespaces : Roles → List Text
role_namespaces [] = []
role_namespaces (r ∷ rs) =
    if is_empty r.namespace then role_namespaces rs else r.namespace ∷ role_namespaces rs

-- `isUpdateUserNamespacesNeeded`: an update is told by the number of names alone.
unfoldable pub is_update_user_namespaces_needed : List Text → Roles → List Text × Bool
is_update_user_namespaces_needed namespaces roles =
    let merged = set_of (set_of [] namespaces) (role_namespaces roles) in
    if not (eqb (length namespaces) (length merged))
    then (sort_strings merged, true)
    else (namespaces, false)

-- `IsUpdateUserNeeded`. The field `roleIDs` shares its array with the slice that is sorted, so it
-- holds the first result in either case.
unfoldable pub is_update_user_needed : User → User × Bool
unfolding is_update_user_role_needed is_update_user_namespaces_needed
is_update_user_needed u =
    let (new_roles, roles_changed) = is_update_user_role_needed u.role_ids (role_ids u.roles) in
    let (new_namespaces, namespaces_changed) =
      is_update_user_namespaces_needed u.namespaces u.roles in
    (
      record u { role_ids = new_roles; namespaces = new_namespaces },
      roles_changed || namespaces_changed,
    )
