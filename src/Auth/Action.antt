-- ===== src/Auth/Action.antt =====
-- internal/auth/action.go: an action is a set of API endpoints, and depends on other actions whose
-- routes it takes over.
pub mod Loading
use epinio.Base.{
  Bool, true, false, ◌&&◌, List, [], ◌∷◌, ◌++◌, Option, none, some, ◌≡◌, any, if◌then◌else◌, Result,
  ok, err,
}
use epinio.Text.{Text, codes, ◌==◌}
use epinio.Text.Sets.{unique_sorted}
use epinio.Text.Maps.{Map, lookup, insert}

-- The method and the path of a route of helpers/routes; its format and handler play no part here.
pub record Route : Type 0 where
  pub method : Text
  pub path : Text

pub record Endpoint : Type 0 where
  pub method : Text
  pub base_path : Text
  pub path : Text

pub record Action : Type 0 where
  pub id : Text
  pub name : Text
  pub depends_on : List Text
  pub endpoints : List Endpoint
  pub routes : List Text
  pub ws_routes : List Text

-- The zero value, which a read of a missing key of `ActionsMap` gives.
abbrev pub zero_action : Action
zero_action = record {
  id = [];
  name = [];
  depends_on = [];
  endpoints = [];
  routes = [];
  ws_routes = [];
}

abbrev pub Actions : Type 0
Actions = Map Action

endpoint_at : Text → Route → Endpoint
endpoint_at base_path route = record {
  method = route.method;
  base_path = base_path;
  path = route.path;
}

new_endpoint : Route → Endpoint
unfolding endpoint_at
new_endpoint = endpoint_at (codes "/api/v1")

new_ws_endpoint : Route → Endpoint
unfolding endpoint_at
new_ws_endpoint = endpoint_at (codes "/wapi/v1")

pub full_path : Endpoint → Text
full_path e = e.base_path ++ e.path

-- The test of the loop of `IsAllowed`.
unfoldable pub serves : Text → Text → Endpoint → Bool
serves method path e = e.method == method && full_path e == path

unfoldable pub action_is_allowed : Action → Text → Text → Bool
action_is_allowed a method path = any (serves method path) a.endpoints

pub merge_and_sort : List Text → List Text → List Text
merge_and_sort xs ys = unique_sorted (xs ++ ys)

pub merge : Action → Action → Action
unfolding merge_and_sort
merge a dependency = record a {
  routes = merge_and_sort a.routes dependency.routes;
  ws_routes = merge_and_sort a.ws_routes dependency.ws_routes;
}

-- The first loop of `InitActions`.
pub load_map : Actions → List Action → Actions
load_map m [] = m
load_map m (a ∷ rest) = load_map (insert a.id a m) rest

-- The loop over the dependencies of one action; the error names the dependency that is missing.
pub merge_all : Actions → Action → List Text → Result Text Action
merge_all m a [] = ok a
merge_all m a (dep ∷ deps) = elim (lookup dep m) [
  | none ↦ err dep
  | some dependency ↦ merge_all m (merge a dependency) deps
]

-- The second loop: the actions already resolved, those to come, and `ActionsMap`. An early return
-- leaves the rest of the slice as it was read.
pub resolve : Actions → List Action → List Action → List Action × Option Text × Actions
resolve m done [] = (done, none, m)
resolve m done (a ∷ rest) = elim (merge_all m a a.depends_on) [
  | err dep ↦ (done ++ a ∷ rest, some dep, m)
  | ok a' ↦ resolve (insert a.id a' m) (done ++ a' ∷ []) rest
]

-- `InitActions` from the decoded YAML and the map that it extends: the actions, the error and the
-- map. The decoder keeps the id of an action through `merge`, so the map is written at that id.
pub init_actions : Actions → List Action → List Action × Option Text × Actions
unfolding load_map merge_all resolve merge
init_actions m actions = resolve (load_map m actions) [] actions
