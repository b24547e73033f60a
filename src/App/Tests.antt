-- ===== src/App/Tests.antt =====
-- Runs of internal/application on a cluster of one namespace, whose state is a map from the names
-- of its secrets.
use epinio.Base.{
  true, false, ◌&&◌, ◌||◌, not, List, [], ◌∷◌, Option, none, some, ◌≡◌, refl, inr, Result, ok, err,
  get_or, arith, if◌then◌else◌,
}
use epinio.Text.{Text, codes, ◌==◌, ==_refl, elem}
use epinio.Text.Split.{lacking}
use epinio.Text.Maps.{Map, lookup, insert, lookup-insert}
use epinio.App.Store.{
  AppRef, AppSecret, ApiError, not_found, Kube, configuration, service, environment, update,
}
use epinio.App.Store.Written.{final, IsStore, Reads}
use epinio.App.Environment.{assign, environment_of, environment_set, environment_unset}
use epinio.App.Environment.Stored.{or_else, environment_set-lookup}
use epinio.App.Bindings.{
  encode_configuration_key, decode_configuration_key, service_key, decode_service_key, bind,
  bound_names, names_of, names_set, names_unset,
}
use epinio.App.Bindings.Keys.{decode_key-encode_key}
use epinio.App.Bindings.Stored.{names_set-members}
use epinio.Integers.{pos, negsuc, ltb_int, itoa, parse_int32}
use epinio.Integers.RoundTrip.{parse_int32-itoa}
use epinio.App.Scaling.{scaling_of, scaling_set}
use epinio.App.Scaling.RoundTrip.{scaling_of-scaling_set}

abbrev State : Type 0
State = Map AppSecret

get_named : Text → Option AppSecret → Result ApiError AppSecret
get_named name none = err not_found
get_named name (some s) = ok (record s { name = name })

abbrev kube : Kube State
kube = record {
  get_secret = λ ns name w. get_named name (lookup name w);
  get_app = λ ref w.
      ok
        (record { api_version = codes "v1"; kind = codes "App"; name = ref.name; uid = codes "7" });
  create_secret = λ ns s w. (ok tt, insert s.name s w);
  update_secret = λ ns s w. (ok tt, insert s.name s w);
  retry = λ call w. call w;
}

get_named_name :
    (name : Text) (found : Option AppSecret) (s : AppSecret)
    → get_named name found ≡ ok s
    → s.name ≡ name
unfolding get_named
get_named_name name none s e = absurd (cc)
get_named_name name (some t) s e = ground arith

kube-updates :
    (s : AppSecret) (w w' : State)
    → kube.update_secret (codes "ns") s w ≡ (ok tt, w')
    → (t : AppSecret) × (get_named s.name (lookup s.name w') ≡ ok t)
      × (get_or t.contents [] ≡ get_or s.contents [])
unfolding get_named
kube-updates s w w' e = (
  record s { name = s.name },
  ground (arith, lookup-insert s.name s.name s w, ==_refl s.name),
  refl,
)

kube-IsStore : IsStore kube
kube-IsStore = record {
  named = λ ns name s w e. get_named_name name (lookup name w) s e;
  updates = λ ns s w w' e. kube-updates s w w' e;
  retries = λ call w. final w;
}

abbrev checksum : Text → Text
checksum s = codes "0000000000000000000000000000000000000000"

abbrev app : AppRef
app = record { name = codes "shop"; namespace = codes "team" }

abbrev variables : Map Text
variables = (codes "PORT", codes "80") ∷ (codes "HOST", codes "db") ∷ []

-- The states after the calls below.
abbrev set_state : State
set_state = (environment_set kube checksum app variables false []).1

abbrev unset_state : State
unset_state = (environment_unset kube checksum app (codes "PORT") []).1

abbrev bound_state : State
bound_state = (names_set kube checksum service app (codes "db" ∷ []) true []).1

abbrev unbound_state : State
unbound_state = (names_unset kube checksum configuration app (codes "db" ∷ []) []).1

abbrev scaled_state : State
scaled_state = (scaling_set kube checksum app (pos 3) []).1

environment_set-lookup_example :
    (old : Option (Map Text)) × ((after : Map Text) × Reads kube checksum environment app
        (assign false variables)
        []
        old
      × (environment_of kube checksum app set_state ≡ (ok after, set_state))
      × ((key : Text)
          → lookup key after
            ≡ or_else (lookup key variables) (if false then none else lookup key (get_or old []))))
unfolding environment_set update get_named lookup ◌==◌
environment_set-lookup_example =
    environment_set-lookup kube checksum kube-IsStore app [] set_state variables false
      (refl, (refl, tt)) refl

names_set-members_example :
    (old : Option (Map Text)) × ((bound : List Text) × Reads kube checksum service app
        (bind true (codes "db" ∷ []))
        []
        old
      × (names_of kube checksum service app bound_state ≡ (ok bound, bound_state))
      × ((x : Text)
          → elem x bound
            ≡ (elem x (codes "db" ∷ []) || (not true && elem x (bound_names (get_or old []))))))
unfolding names_set update get_named lookup
names_set-members_example =
    names_set-members kube checksum kube-IsStore service app [] bound_state (inr refl)
      (codes "db" ∷ []) true refl

scaling_of-scaling_set_example :
    scaling_of kube checksum app scaled_state ≡ (ok (pos 3), scaled_state)
unfolding scaling_set update get_named lookup ltb_int
scaling_of-scaling_set_example =
    scaling_of-scaling_set kube checksum kube-IsStore app (pos 3) [] scaled_state (omega arith) refl

parse_int32-itoa_example : parse_int32 (itoa (negsuc 41)) ≡ some (negsuc 41)
parse_int32-itoa_example = parse_int32-itoa (negsuc 41) (omega arith)

decode_key-encode_key_example :
    (decode_configuration_key (encode_configuration_key (codes "db") (codes "team"))
      ≡ some (codes "db", codes "team"))
    × (decode_service_key (service_key (codes "db") (codes "team"))
        ≡ some (codes "db", codes "team"))
decode_key-encode_key_example =
    decode_key-encode_key (codes "db") (codes "team") (lacking 0 (codes "db") refl)
      (lacking 0 (codes "team") refl)
