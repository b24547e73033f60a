-- ===== src/Auth/User/Access.antt =====
-- Which requests a user may make, as a statement about the roles and their endpoints.
use epinio.Base.{
  Bool, true, ◌&&◌, not, [], ◌∷◌, none, some, ◌≡◌, ◌↔◌, inl, inr, refl, any, any_iff, any-filter,
  arith, Bool-cases, Option-cases, if◌then◌else◌, is_some,
}
use mathlib.Core.List.{Memᴰ}
use epinio.Text.{Text, codes, ◌==◌, ==_iff}
use epinio.Text.Maps.{Map, lookup}
use epinio.Auth.Role.{Role, Roles, admin, role_is_allowed, roles_is_allowed, find_by_id}
use epinio.Auth.Role.Access.{Permits, role_is_allowed_iff}
use epinio.Auth.User.{User, filter_roles_by_namespace, no_roles, user_is_allowed, is_admin}

-- The namespace whose roles decide: the request's, if a role is scoped to it, and none otherwise.
abbrev pub deciding : User → Map Text → Text
deciding u params = elim (lookup (codes "namespace") params) [
  | none ↦ []
  | some namespace ↦ if any (λ (r : Role). r.namespace == namespace) u.roles then namespace else []
]

no_roles-filter :
    (ns : Text) (roles : Roles)
    → no_roles (filter_roles_by_namespace roles ns) ≡ not (any (λ r. r.namespace == ns) roles)
unfolding filter_roles_by_namespace
no_roles-filter ns [] = refl
no_roles-filter ns (r ∷ rs) = ground (arith, no_roles-filter ns rs)

user_is_allowed-deciding :
    (u : User) (method path : Text) (params : Map Text)
    → user_is_allowed u method path params
      ≡ roles_is_allowed (filter_roles_by_namespace u.roles (deciding u params)) method path
unfolding user_is_allowed
user_is_allowed-deciding u method path params =
    elim (Option-cases (lookup (codes "namespace") params)) [
      | inl e ↦ ground arith
      | inr (ns, e) ↦ ground (arith, no_roles-filter ns u.roles)
    ]

roles_is_allowed_iff :
    (roles : Roles) (ns method path : Text)
    → (roles_is_allowed (filter_roles_by_namespace roles ns) method path ≡ true)
      ↔ ((r : Role) × Memᴰ r roles × (r.namespace ≡ ns) × Permits r method path)
unfolding roles_is_allowed filter_roles_by_namespace
roles_is_allowed_iff roles ns method path = rw any-filter (to, from)
  where
    both : Role → Bool
    both r = r.namespace == ns && role_is_allowed r method path

    open_any : (any both roles ≡ true) ↔ ((r : Role) × Memᴰ r roles × (both r ≡ true))
    open_any = any_iff both roles

    to :
        any both roles ≡ true
        → (r : Role) × Memᴰ r roles × (r.namespace ≡ ns) × Permits r method path
    to h =
        let (r, m, k) = open_any.0 h in
        (
          r,
          m,
          ground (arith, ==_iff r.namespace ns),
          (role_is_allowed_iff r method path).0 (ground arith),
        )

    from :
        (r : Role) × Memᴰ r roles × (r.namespace ≡ ns) × Permits r method path
        → any both roles ≡ true
    from (r, m, e, p) =
        open_any.1
          (r, m, ground (arith, ==_iff r.namespace ns, (role_is_allowed_iff r method path).1 p))

-- A request is allowed exactly if a role of the deciding namespace permits it: the admin role, or
-- a role with an action that has the endpoint asked for.
pub user_is_allowed_iff :
    (u : User) (method path : Text) (params : Map Text)
    → (user_is_allowed u method path params ≡ true)
      ↔ ((r : Role) × Memᴰ r u.roles × (r.namespace ≡ deciding u params) × Permits r method path)
user_is_allowed_iff u method path params =
    rw user_is_allowed-deciding (roles_is_allowed_iff u.roles (deciding u params) method path)

admin_of_find :
    (roles : Roles)
    → is_some (find_by_id roles admin) ≡ true
    → (r : Role) × Memᴰ r roles × (r.id ≡ admin) × (r.namespace ≡ [])
unfolding find_by_id
admin_of_find [] h = absurd (cc)
admin_of_find (r ∷ rs) h = elim (Bool-cases (r.id == admin && r.namespace == [])) [
  | inl e ↦
      (r, Memᴰ.head refl, ground (arith, ==_iff r.id admin), ground (arith, ==_iff r.namespace []))
  | inr e ↦ let (q, m, i, n) = admin_of_find rs (ground arith) in (q, Memᴰ.tail m, i, n)
]

-- A global admin may do everything where no role is scoped to the namespace of the request.
pub is_admin-is_allowed :
    (u : User) (method path : Text) (params : Map Text)
    → is_admin u ≡ true
    → deciding u params ≡ []
    → user_is_allowed u method path params ≡ true
unfolding is_admin
is_admin-is_allowed u method path params h e =
    let (r, m, i, n) = admin_of_find u.roles h in
    (user_is_allowed_iff u method path params).1 (r, m, rw e n, inl i)
