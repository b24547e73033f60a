-- ===== src/Routing.antt =====
-- internal/routes/routes.go: a route as a text, and the ingress that serves it.
pub mod RoundTrip
use epinio.Base.{List, [], ◌∷◌, ◌++◌, Option, none, some, ◌≡◌, map}
use epinio.Text.{Text, codes}
use epinio.Text.Affix.{trim_suffix}
use epinio.Text.Split.{cut}

pub record Route : Type 0 where
  pub domain : Text
  pub path : Text

unfoldable pub to_string : Route → Text
to_string r = trim_suffix (r.domain ++ r.path) (codes "/")

-- `SplitN(routeStr, "/", 2)` gives one part or two.
unfoldable pub from_string : Text → Route
from_string s = elim (cut s b'/') [
  | none ↦ record { domain = s; path = codes "/" }
  | some (domain, rest) ↦ record { domain = domain; path = b'/' ∷ rest }
]

-- A rule of an ingress: the host, and the paths of its HTTP part, a pointer that may be nil.
pub record Rule : Type 0 where
  pub host : Text
  pub paths : Option (List Text)

pub record Ingress : Type 0 where
  pub name : Text
  pub rules : List Rule

pub to_ingress : Route → Text → Ingress
to_ingress r name = record {
  name = name;
  rules = record { host = r.domain; paths = some (r.path ∷ []) } ∷ [];
}

abbrev routes_at : Text → List Text → List Route
routes_at domain [] = []
routes_at domain (path ∷ paths) = record { domain = domain; path = path } ∷ routes_at domain paths

-- The loop of `FromIngress`; `none` is the panic of a rule without an HTTP part.
routes_of : List Rule → Option (List Route)
routes_of [] = some []
routes_of (r ∷ rules) = elim r.paths [
  | none ↦ none
  | some paths ↦ elim (routes_of rules) [
    | none ↦ none
    | some rest ↦ some (routes_at r.host paths ++ rest)
  ]
]

pub from_ingress : Ingress → Option (List Route)
unfolding routes_of
from_ingress i = routes_of i.rules
