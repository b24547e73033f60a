-- ===== src/App/Bound/Tests.antt =====
-- Runs on a cluster that lists one binding, and on one where an application was deleted.
use epinio.Base.{List, [], ◌∷◌, Option, none, some, ◌≡◌, refl, Result, ok, get_or, if◌then◌else◌}
use epinio.Text.{Text, codes, ◌==◌}
use epinio.Text.Maps.{Map, lookup}
use epinio.App.Store.{AppRef, AppSecret, ApiError}
use epinio.App.Bindings.{encode_configuration_key, bound_apps_names, bound_apps_names_for}
use epinio.App.Bindings.Inverted.{bound_apps_names-for}

abbrev State : Type 0
State = Map AppSecret

-- The binding of an application of the namespace, and a cluster that lists it.
abbrev binding : AppSecret
binding = record {
  name = codes "shop-svc";
  namespace = codes "team";
  labels =
      (codes "app.kubernetes.io/name", codes "shop")
      ∷ (codes "app.kubernetes.io/part-of", codes "team")
      ∷ [];
  owners = [];
  contents = some ((codes "db", []) ∷ (codes "queue", []) ∷ []);
}

abbrev list_all : Text → Text → State → Result ApiError (List AppSecret)
list_all namespace by w = ok (binding ∷ [])

bound_apps_names-for_example :
    (m : Map (List Text)) × (bound_apps_names list_all (codes "team") [] ≡ ok m)
    × (bound_apps_names_for list_all (codes "team") (codes "db") []
        ≡ ok (get_or (lookup (encode_configuration_key (codes "db") (codes "team")) m) []))
unfolding lookup ◌==◌
bound_apps_names-for_example =
    bound_apps_names-for list_all [] (codes "db") (codes "team") (binding ∷ [])
      ((refl, (refl, (refl, tt))), tt) refl

-- A cluster where an application that was deleted stands in front of one that is there.
abbrev deleted_first : AppSecret
deleted_first = record binding {
  labels =
      (codes "app.kubernetes.io/name", codes "gone")
      ∷ (codes "app.kubernetes.io/part-of", codes "team")
      ∷ [];
}

abbrev list_both : Text → Text → State → Result ApiError (List AppSecret)
list_both namespace by w = ok (deleted_first ∷ binding ∷ [])

abbrev fetch_shop : AppRef → Option Text
fetch_shop ref = if ref.name == codes "shop" then some ref.name else none

abbrev both : Map (List Text)
both =
    (codes "db", codes "gone" ∷ codes "shop" ∷ [])
    ∷ (codes "queue", codes "gone" ∷ codes "shop" ∷ [])
    ∷ []
