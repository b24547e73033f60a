-- ===== src/Auth/Secret.antt =====
-- internal/auth/user.go: how a user is written into a kubernetes secret, and read from one.
pub mod Lines
pub mod Known
pub mod RoundTrip
use epinio.Base.{
  ℕ, Bool, true, false, not, List, [], ◌∷◌, ◌++◌, Option, none, some, ◌≡◌, filter, map,
  if◌then◌else◌, get_or,
}
use epinio.Text.{Text, codes, ◌==◌}
use epinio.Text.Affix.{is_empty, trim_space}
use epinio.Text.Split.{split, join}
use epinio.Text.Sets.{unique_sorted}
use epinio.Text.Maps.{Map, lookup, insert, delete}
use epinio.Names.{generate_resource_name}
use epinio.Auth.Role.{Role, Roles, admin_role, find_by_id, parse_role_id, role_ids}
use epinio.Auth.User.{User}

-- The fields of a `corev1.Secret` that the package reads or writes; the decoded `data` and the
-- write-only `string_data` hold text. Annotations that are missing are a nil map, `none`.
pub record Secret : Type 0 where
  pub name : Text
  pub created_at : ℕ
  pub labels : Map Text
  pub annotations : Option (Map Text)
  pub contents : Map Text
  pub string_data : Map Text

abbrev pub comma : ℕ
comma = b','

abbrev pub newline : ℕ
newline = 10

abbrev pub roles_annotation : Text
roles_annotation = codes "epinio.io/roles"

abbrev pub role_label : Text
role_label = codes "epinio.io/role"

abbrev pub credentials_label : Text
credentials_label = codes "epinio.io/api-user-credentials"

abbrev pub field : Text → Map Text → Text
field key m = get_or (lookup key m) []

-- The loop over the role ids of a secret: an unknown role is skipped, and the namespace of the id
-- is put into a copy of the role.
pub load_roles : Roles → List Text → Roles
load_roles known [] = []
load_roles known (text ∷ texts) =
    let (id, namespace) = parse_role_id text in
    elim (find_by_id known id) [
      | none ↦ load_roles known texts
      | some role ↦ record role { namespace = namespace } ∷ load_roles known texts
    ]

-- The loop over the lines of `namespaces` and `gitconfigs`.
pub load_names : List Text → List Text
load_names [] = []
load_names (line ∷ lines) =
    let name = trim_space line in
    if is_empty name then load_names lines else name ∷ load_names lines

-- A missing key gives no names.
pub names_at : Text → Map Text → List Text
names_at key m = elim (lookup key m) [
  | none ↦ []
  | some text ↦ load_names (split (trim_space text) newline)
]

-- The admin role in each of a legacy user's namespaces.
abbrev admin_in : List Text → Roles
admin_in [] = []
admin_in (ns ∷ rest) = record admin_role { namespace = ns } ∷ admin_in rest

-- The roles that a secret with the label of before v1.11.0 adds.
legacy_roles : Roles → List Text → Option Text → Roles
legacy_roles known namespaces none = []
legacy_roles known namespaces (some old_role) =
    (elim (find_by_id known old_role) [ none ↦ [] | some role ↦ role ∷ [] ])
    ++ (if old_role == codes "user" then admin_in namespaces else [])

-- `newUserFromSecret`, over `EpinioRoles`.
pub new_user_from_secret : Roles → Secret → User
unfolding legacy_roles
new_user_from_secret known secret =
    let annotation = trim_space (field roles_annotation (get_or secret.annotations [])) in
    let ids : List Text = if is_empty annotation then [] else split annotation comma in
    let namespaces = names_at (codes "namespaces") secret.contents in
    record {
      username = field (codes "username") secret.contents;
      password = field (codes "password") secret.contents;
      created_at = secret.created_at;
      roles =
          load_roles known ids ++ legacy_roles known namespaces (lookup role_label secret.labels);
      namespaces = namespaces;
      gitconfigs = names_at (codes "gitconfigs") secret.contents;
      role_ids = ids;
      secret_name = secret.name;
    }

-- The secret that `updateUserSecretData` makes, from the annotations of before.
pub with_user : User → Map Text → Secret → Secret
with_user u annotations secret = record secret {
  annotations =
      some (
        insert roles_annotation (join (unique_sorted (role_ids u.roles)) (comma ∷ [])) annotations);
  string_data =
      (codes "username", u.username)
      ∷ (codes "namespaces", join u.namespaces (newline ∷ []))
      ∷ (codes "gitconfigs", join u.gitconfigs (newline ∷ []))
      ∷ [];
  labels = delete role_label secret.labels;
}

-- `updateUserSecretData`; `none` is the panic of a write into a nil map.
unfoldable pub update_user_secret_data : User → Secret → Option Secret
unfolding with_user
update_user_secret_data u secret = elim secret.annotations [
  | none ↦ none
  | some annotations ↦ some (with_user u annotations secret)
]

-- `newSecretFromUser`: the name begins with "r", since the generated name may begin with a digit.
pub new_secret_from_user : (Text → Text) → User → Option Secret
unfolding update_user_secret_data
new_secret_from_user sha1_hex u =
    elim (generate_resource_name sha1_hex (codes "user" ∷ u.username ∷ [])) [
      | none ↦ none
      | some name ↦ update_user_secret_data u (record {
        name = b'r' ∷ name;
        created_at = 0;
        labels = (credentials_label, codes "true") ∷ [];
        annotations = some [];
        contents = [];
        string_data = [];
      })
    ]
