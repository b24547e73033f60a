-- ===== src/Middleware/Access.antt =====
-- When a request passes the two authorizations, and what the query does to the second.
use epinio.Base.{
  Bool, true, false, ◌||◌, List, [], ◌∷◌, none, some, ◌≡◌, ◌↔◌, ◌⊎◌, refl, inl, inr, ap, ◌∙◌, any,
  all, arith,
}
use epinio.Text.{Text, codes, ◌==◌, ==_iff, elem}
use epinio.Text.Affix.{is_empty}
use epinio.Text.Maps.{lookup}
use epinio.Auth.User.{User, is_admin}
use epinio.Middleware.{
  Request, Outcome, passed, unauthorized, path_restricted, unauthorized_for, param,
  role_authorization, restricted_path, authorize_user, requested, check_all,
  namespace_authorization, authorize, then_run,
}

-- The empty name, or one of the names that the user has.
abbrev pub may_access : List Text → Text → Bool
may_access allowed resource = is_empty resource || elem resource allowed

any_swap : (x : Text) (ys : List Text) → any (λ y. x == y) ys ≡ elem x ys
any_swap x [] = refl
any_swap x (y ∷ ys) = ground (arith, any_swap x ys, ==_iff x y, ==_iff y x)

authorize_user-may_access :
    (resource : Text) (allowed : List Text)
    → authorize_user resource allowed ≡ may_access allowed resource
unfolding authorize_user
authorize_user-may_access resource allowed = ground (arith, any_swap resource allowed)

check_all_iff :
    (label : Text) (allowed resources : List Text)
    → (check_all label allowed resources ≡ passed) ↔ (all (may_access allowed) resources ≡ true)
unfolding check_all
check_all_iff label allowed [] = (λ _. refl, λ _. refl)
check_all_iff label allowed (r ∷ rs) =
    ground (arith, check_all_iff label allowed rs, authorize_user-may_access r allowed)

-- A request passes the namespace authorization exactly if the user is a global admin, or the path
-- is not reserved for admins and every name that is checked is empty or a namespace of the user.
pub namespace_authorization_iff :
    (u : User) (r : Request)
    → (namespace_authorization u r ≡ passed) ↔ (
        (is_admin u ≡ true)
        ⊎ ((restricted_path r.url_path ≡ false)
            × (all (may_access u.namespaces) (requested r (codes "namespace")) ≡ true)))
unfolding namespace_authorization
namespace_authorization_iff u r =
    let (to, from) =
      check_all_iff (codes "namespace") u.namespaces (requested r (codes "namespace")) in
    (λ h. ground (arith, to), λ h. ground (arith, from))

then_run-passed : (a b : Outcome) → then_run a b ≡ passed → b ≡ passed
then_run-passed passed b h = h
then_run-passed unauthorized b h = ground arith
then_run-passed path_restricted b h = ground arith
then_run-passed (unauthorized_for l r) b h = ground arith

all-may_access :
    (allowed names : List Text)
    → all (λ ns. elem ns allowed) names ≡ true
    → all (may_access allowed) names ≡ true
all-may_access allowed [] h = refl
all-may_access allowed (n ∷ ns) h = ground (arith, all-may_access allowed ns)

requested-param :
    (r : Request)
    → lookup (codes "namespaces[]") r.query ≡ none
    → requested r (codes "namespace") ≡ param r (codes "namespace") ∷ []
unfolding requested lookup
requested-param r q = rw (q, requested)

requested_query :
    (r : Request) (names : List Text)
    → lookup (codes "namespaces[]") r.query ≡ some names
    → requested r (codes "namespace") ≡ names
unfolding requested lookup
requested_query r names q = rw (q, requested)

-- Without the query `namespaces[]`, only an admin passes both authorizations for a namespace that
-- is named in the path and is not the user's.
pub authorize_guards_namespace :
    (u : User) (r : Request)
    → lookup (codes "namespaces[]") r.query ≡ none
    → authorize u r ≡ passed
    → (is_admin u ≡ true) ⊎ (may_access u.namespaces (param r (codes "namespace")) ≡ true)
unfolding authorize
authorize_guards_namespace u r q h =
    let inner = then_run-passed (role_authorization u r) (namespace_authorization u r) h in
    elim ((namespace_authorization_iff u r).0 inner) [
      | inl admin ↦ inl admin
      | inr (free, allowed) ↦ inr (ground (arith, requested-param r q, allowed))
    ]

-- With the query, the namespace of the path is not checked: whatever namespace the path names, a
-- request passes whose query lists only namespaces of the user.
pub namespace_authorization_skips_path :
    (u : User) (r : Request) (names : List Text)
    → restricted_path r.url_path ≡ false
    → lookup (codes "namespaces[]") r.query ≡ some names
    → all (λ ns. elem ns u.namespaces) names ≡ true
    → (victim : Text)
    → namespace_authorization u (record r { params = (codes "namespace", victim) ∷ [] }) ≡ passed
namespace_authorization_skips_path u r names free q own victim =
    let r1 = record r { params = (codes "namespace", victim) ∷ [] } in
    (namespace_authorization_iff u r1).1 (
      inr (
        free,
        ap (all (may_access u.namespaces)) (requested_query r1 names q)
            ∙ all-may_access u.namespaces names own,
      ))
