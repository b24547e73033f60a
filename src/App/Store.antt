-- ===== src/App/Store.antt =====
-- internal/application/secret.go, the names of the secrets in pkg/api/core/v1/models/app.go, and
-- the read, modify and write cycle that env.go, configurations.go, services.go and scale.go share.
pub mod Written
use epinio.Base.{
  Bool, true, false, List, [], ◌∷◌, ◌++◌, Option, none, some, ◌≡◌, get_or, Result, ok, err,
}
use epinio.Text.{Text, codes}
use epinio.Text.Maps.{Map}
use epinio.Names.{generate_resource_name}

pub record AppRef : Type 0 where
  pub name : Text
  pub namespace : Text

-- The four secrets of an application, each with the functions of one file.
pub data Area : Type 0 where
  environment configuration service scaling : Area

-- The suffixes of `MakeEnvSecretName`, `MakeConfigurationSecretName`, `MakeServiceSecretName` and
-- `MakeScaleSecretName`.
abbrev suffix : Area → Text
suffix environment = codes "-env"
suffix configuration = codes "-config"
suffix service = codes "-svc"
suffix scaling = codes "-scale"

abbrev pub area_label : Area → Text
area_label environment = codes "environment"
area_label configuration = codes "configuration"
area_label service = codes "service"
area_label scaling = codes "scaling"

-- The fields of the app's resource that an owner reference takes over.
pub record Owner : Type 0 where
  pub api_version : Text
  pub kind : Text
  pub name : Text
  pub uid : Text

-- A `v1.Secret` of an application; `none` is a nil map of data.
pub record AppSecret : Type 0 where
  pub name : Text
  pub namespace : Text
  pub labels : Map Text
  pub owners : List Owner
  pub contents : Option (Map Text)

-- An error of the API, by the two questions that the code asks of it.
pub data ApiError : Type 0 where
  not_found conflict : ApiError
  failed : Text → ApiError

-- The calls of the kubernetes API, on a cluster state `W`.
pub record Kube (W : Type 0) : Type 0 where
  pub get_secret : Text → Text → W → Result ApiError AppSecret
  pub get_app : AppRef → W → Result ApiError Owner
  pub create_secret : Text → AppSecret → W → Result ApiError (Unit {0}) × W
  pub update_secret : Text → AppSecret → W → Result ApiError (Unit {0}) × W
  -- `retry.RetryOnConflict(retry.DefaultRetry, …)`
  pub retry : (W → Result ApiError (Unit {0}) × W) → W → Result ApiError (Unit {0}) × W

make_secret : AppRef → Area → AppSecret
make_secret ref area = record {
  name = [];
  namespace = ref.namespace;
  labels =
      (codes "app.kubernetes.io/name", ref.name)
      ∷ (codes "app.kubernetes.io/part-of", ref.namespace)
      ∷ (codes "app.kubernetes.io/managed-by", codes "epinio")
      ∷ (codes "app.kubernetes.io/component", codes "application")
      ∷ (codes "epinio.io/area", area_label area)
      ∷ [];
  owners = [];
  contents = none;
}

-- The data of a secret that has none, before a modification: only `scaleUpdate` fills it.
abbrev pub fresh : Area → Map Text
fresh environment = []
fresh configuration = []
fresh service = []
fresh scaling = (codes "desired", codes "1") ∷ []

module _ {W : Type 0} (api : Kube W) (sha1_hex : Text → Text) where
  -- A name is generated for every text, as its length is not less than two.
  pub secret_name : Area → AppRef → Text
  secret_name area ref =
      get_or (generate_resource_name sha1_hex ((ref.name ++ suffix area) ∷ [])) []

  -- `createSecret`, which returns the secret that it has made, not the one stored.
  pub create_secret : Area → AppRef → W → Result ApiError AppSecret × W
  unfolding make_secret secret_name
  create_secret area ref w = elim (api.get_app ref w) [
    | err e ↦ (err e, w)
    | ok owner ↦
        let secret = record (make_secret ref area) {
          name = secret_name area ref;
          owners = owner ∷ [];
        } in
        let (r, w') = api.create_secret ref.namespace secret w in
        elim r [ ok _ ↦ (ok secret, w') | err e ↦ (err e, w') ]
  ]

  -- `loadOrCreateSecret` at the name of the area.
  pub load_or_create : Area → AppRef → W → Result ApiError AppSecret × W
  unfolding create_secret
  load_or_create area ref w = elim (api.get_secret ref.namespace (secret_name area ref) w) [
    | ok secret ↦ (ok secret, w)
    | err not_found ↦ create_secret area ref w
    | err conflict ↦ (err conflict, w)
    | err (failed m) ↦ (err (failed m), w)
  ]

  -- One round of `envUpdate`, `configUpdate`, `svcUpdate` or `scaleUpdate`.
  pub update_once : Area → AppRef → (Map Text → Map Text) → W → Result ApiError (Unit {0}) × W
  unfolding load_or_create
  update_once area ref modify w =
      let (r, w') = load_or_create area ref w in
      elim r [
        | err e ↦ (err e, w')
        | ok secret ↦
            api.update_secret ref.namespace
              (record secret { contents = some (modify (get_or secret.contents (fresh area))) }) w'
      ]

  unfoldable pub update : Area → AppRef → (Map Text → Map Text) → W → Result ApiError (Unit {0}) × W
  unfolding update_once
  update area ref modify = api.retry (update_once area ref modify)

  -- What a read of the area gives: its data, where a nil map is empty.
  pub contents_of : Area → AppRef → W → Result ApiError (Map Text) × W
  unfolding load_or_create
  contents_of area ref w =
      let (r, w') = load_or_create area ref w in
      elim r [ err e ↦ (err e, w') | ok secret ↦ (ok (get_or secret.contents []), w') ]
