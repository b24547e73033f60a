-- ===== src/Auxiliary/Tests.antt =====
-- Runs of makeAuxiliaryMap.
use epinio.Base.{List, [], ◌∷◌, none, some, ◌≡◌, ◌↔◌, refl}
use epinio.Text.{Text, codes, ◌==◌}
use epinio.Text.Maps.{lookup, insert}
use epinio.App.Bindings.{encode_configuration_key}
use epinio.Auxiliary.{Secret, Unpacked, make_auxiliary_map, unpack}
use epinio.Auxiliary.LastSecret.{
  environment, configuration, scale, service, last_secret, unpack-last_secret,
}

abbrev of_area : Text → Text → Secret
of_area area value = record {
  namespace = codes "team";
  labels = (codes "epinio.io/area", area) ∷ (codes "app.kubernetes.io/name", codes "app") ∷ [];
  content = (codes "value", value) ∷ [];
}

abbrev secrets : List Secret
secrets =
    of_area (codes "environment") (codes "old")
    ∷ of_area (codes "configuration") []
    ∷ record { namespace = codes "team"; labels = []; content = [] }
    ∷ of_area (codes "scaling") (codes "3")
    ∷ of_area (codes "environment") (codes "new")
    ∷ []

abbrev key : Text
key = encode_configuration_key (codes "app") (codes "team")

in_deletion_test :
    unpack (lookup key (make_auxiliary_map (of_area (codes "scaling") (codes "3") ∷ []) [])) ≡ none
unfolding unpack lookup make_auxiliary_map ◌==◌ insert encode_configuration_key
in_deletion_test = refl

abbrev newest : Unpacked
newest = record {
  env = of_area (codes "environment") (codes "new");
  bound = of_area (codes "configuration") [];
  scaling = of_area (codes "scaling") (codes "3");
  services = none;
}

unpack-last_secret_example : (unpack (lookup key (make_auxiliary_map secrets [])) ≡ some newest) ↔ (
    (last_secret environment key secrets ≡ some newest.env)
    × (last_secret configuration key secrets ≡ some newest.bound)
    × (last_secret scale key secrets ≡ some newest.scaling)
    × (last_secret service key secrets ≡ none))
unpack-last_secret_example = unpack-last_secret key secrets newest

unpack_test : unpack (lookup key (make_auxiliary_map secrets [])) ≡ some newest
unfolding lookup ◌==◌ encode_configuration_key
unpack_test = (unpack-last_secret key secrets newest).1 (refl, refl, refl, refl)
