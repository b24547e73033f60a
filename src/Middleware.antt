-- ===== src/Middleware.antt =====
-- internal/api/v1/middleware/auth.go: the authorization of a request by role and by namespace, in
-- the order in which internal/cli/server/server.go mounts the two.
pub mod Access
use epinio.Base.{
  Bool, true, false, ◌&&◌, ◌||◌, not, List, [], ◌∷◌, ◌++◌, Option, none, some, ◌≡◌, if◌then◌else◌,
  get_or, any,
}
use epinio.Text.{Text, codes, ◌==◌, elem}
use epinio.Text.Affix.{is_empty}
use epinio.Text.Maps.{Map, lookup, insert}
use epinio.Auth.User.{User, user_is_allowed, is_admin}

-- What the handlers read of a `gin.Context`: the method, the pattern of the route, the path of the
-- URL, the path parameters and the query, whose values are arrays.
pub record Request : Type 0 where
  pub method : Text
  pub full_path : Text
  pub url_path : Text
  pub params : List (Text × Text)
  pub query : Map (List Text)

pub data Outcome : Type 0 where
  passed : Outcome
  unauthorized path_restricted : Outcome
  unauthorized_for : (label resource : Text) → Outcome

-- The loop that copies the parameters into a map.
params_map : Map Text → List (Text × Text) → Map Text
params_map m [] = m
params_map m ((k, v) ∷ rest) = params_map (insert k v m) rest

-- `c.Param`, the first parameter of the name, or the empty text.
abbrev pub param : Request → Text → Text
param r label = get_or (lookup label r.params) []

unfoldable pub role_authorization : User → Request → Outcome
unfolding params_map
role_authorization u r =
    if user_is_allowed u r.method r.full_path (params_map [] r.params) then passed else unauthorized

-- `AdminRoutes` of internal/api/v1/router.go.
abbrev pub admin_routes : List Text
admin_routes = codes "/api/v1/support-bundle" ∷ codes "/api/v1/report/nodes" ∷ []

unfoldable pub restricted_path : Text → Bool
restricted_path path = elem path admin_routes

pub authorize_user : Text → List Text → Bool
authorize_user resource allowed =
    if is_empty resource then true else any (λ ns. resource == ns) allowed

-- The resources to check: those of the query `labels[]`, or else the path's parameter.
pub requested : Request → Text → List Text
requested r label = elim (lookup (label ++ codes "s[]") r.query) [
  | some names ↦ names
  | none ↦ param r label ∷ []
]

check_all : Text → List Text → List Text → Outcome
check_all label allowed [] = passed
check_all label allowed (resource ∷ rest) =
    if authorize_user resource allowed
    then check_all label allowed rest
    else unauthorized_for label resource

authorization : User → Request → Text → List Text → Outcome
unfolding check_all
authorization u r label allowed =
    if is_admin u
    then passed
    else if restricted_path r.url_path
    then path_restricted
    else check_all label allowed (requested r label)

unfoldable pub namespace_authorization : User → Request → Outcome
unfolding authorization
namespace_authorization u r = authorization u r (codes "namespace") u.namespaces

-- A middleware that aborts ends the chain.
abbrev then_run : Outcome → Outcome → Outcome
then_run passed next = next
then_run stopped next = stopped

-- The two middlewares of the API group, in order.
unfoldable pub authorize : User → Request → Outcome
authorize u r = then_run (role_authorization u r) (namespace_authorization u r)
