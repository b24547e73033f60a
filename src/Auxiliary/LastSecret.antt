-- ===== src/Auxiliary/LastSecret.antt =====
-- internal/application/application.go: the secrets that an application is put together from.
use epinio.Base.{
  false, List, [], ◌∷◌, Option, none, some, ◌≡◌, refl, ap, ◌∙◌, if◌then◌else◌, get_or, ◌↔◌,
  Bool-cases, inl, inr,
}
use epinio.Text.{Text, codes, ◌==◌, ==_iff}
use epinio.Text.Maps.{Map, lookup, lookup-insert}
use epinio.Auxiliary.{
  Secret, AppData, no_data, assign, area_and_key, make_auxiliary_map, Unpacked, parts, unpack,
  with_secret,
}

pub data Area : Type 0 where
  environment configuration scale service : Area

abbrev pub name_of : Area → Text
name_of environment = codes "environment"
name_of configuration = codes "configuration"
name_of scale = codes "scaling"
name_of service = codes "service"

abbrev pub field : Area → AppData → Option Secret
field environment d = d.env
field configuration d = d.bound
field scale d = d.scaling
field service d = d.services

abbrev pub or_else : Option Secret → Option Secret → Option Secret
or_else none o = o
or_else (some s) o = some s

-- A secret, if it is of this area and key.
abbrev pub secret_at : Area → Text → Secret → Option (Text × Text) → Option Secret
secret_at a key s none = none
secret_at a key s (some (area, k)) =
    if k == key then if area == name_of a then some s else none else none

-- The last of the secrets of an area and a key.
abbrev pub last_secret : Area → Text → List Secret → Option Secret
last_secret a key [] = none
last_secret a key (s ∷ secrets) =
    or_else (last_secret a key secrets) (secret_at a key s (area_and_key s))

module _ (s : Secret) (d : AppData) where
  abbrev IsAssigned : Area → Text → Type 0
  IsAssigned a area = field a (assign area s d) ≡ (if area == name_of a then some s else field a d)

  known_area : (a b : Area) → IsAssigned a (name_of b)
  unfolding ◌==◌
  known_area environment environment = refl
  known_area environment configuration = refl
  known_area environment scale = refl
  known_area environment service = refl
  known_area configuration environment = refl
  known_area configuration configuration = refl
  known_area configuration scale = refl
  known_area configuration service = refl
  known_area scale environment = refl
  known_area scale configuration = refl
  known_area scale scale = refl
  known_area scale service = refl
  known_area service environment = refl
  known_area service configuration = refl
  known_area service scale = refl
  known_area service service = refl

  unknown_area :
      (a : Area) (area : Text) → ((b : Area) → (area == name_of b) ≡ false) → IsAssigned a area
  unknown_area environment area n = rw (n environment, n configuration, n scale, n service) refl
  unknown_area configuration area n = rw (n environment, n configuration, n scale, n service) refl
  unknown_area scale area n = rw (n environment, n configuration, n scale, n service) refl
  unknown_area service area n = rw (n environment, n configuration, n scale, n service) refl

  field-assign : (a : Area) (area : Text) → IsAssigned a area
  field-assign a area = by_name scale λ n1. by_name configuration λ n2.
      by_name environment λ n3. by_name service λ n4. unknown_area a area λ b. other b n1 n2 n3 n4
    where
      by_name : (b : Area) → ((area == name_of b) ≡ false → IsAssigned a area) → IsAssigned a area
      by_name b k = elim (Bool-cases (area == name_of b)) [
        | inl e ↦
            let same : area ≡ name_of b = (==_iff area (name_of b)).0 e in rw same (known_area a b)
        | inr e ↦ k e
      ]

      other :
          (b : Area)
          → (area == name_of scale) ≡ false
          → (area == name_of configuration) ≡ false
          → (area == name_of environment) ≡ false
          → (area == name_of service) ≡ false
          → (area == name_of b) ≡ false
      other scale n1 n2 n3 n4 = n1
      other configuration n1 n2 n3 n4 = n2
      other environment n1 n2 n3 n4 = n3
      other service n1 n2 n3 n4 = n4

abbrev field_at : Area → Option AppData → Option Secret
field_at a none = none
field_at a (some d) = field a d

field-no_data : (a : Area) (o : Option AppData) → field a (get_or o no_data) ≡ field_at a o
field-no_data a (some d) = refl
field-no_data environment none = refl
field-no_data configuration none = refl
field-no_data scale none = refl
field-no_data service none = refl

make_auxiliary_map-last_secret :
    (a : Area) (key : Text) (secrets : List Secret) (m : Map AppData)
    → field_at a (lookup key (make_auxiliary_map secrets m))
      ≡ or_else (last_secret a key secrets) (field_at a (lookup key m))
unfolding make_auxiliary_map
make_auxiliary_map-last_secret a key [] m = refl
make_auxiliary_map-last_secret a key (s ∷ secrets) m =
    make_auxiliary_map-last_secret a key secrets (with_secret s (area_and_key s) m)
    ∙ joined (last_secret a key secrets) _ _ _ (at_key (area_and_key s))
  where
    joined : (o p q r : Option Secret) → q ≡ or_else p r → or_else o q ≡ or_else (or_else o p) r
    joined none p q r e = e
    joined (some last) p q r e = refl

    at_key :
        (o : Option (Text × Text))
        → field_at a (lookup key (with_secret s o m))
          ≡ or_else (secret_at a key s o) (field_at a (lookup key m))
    at_key none = refl
    at_key (some (area, k)) = elim (Bool-cases (k == key)) [
      | inr n ↦ rw (lookup-insert, n) refl
      | inl y ↦
          let same : k ≡ key = (==_iff k key).0 y in
          let old : field a (get_or (lookup k m) no_data) ≡ field_at a (lookup key m) =
            field-no_data a (lookup k m) ∙ ap (λ (t : Text). field_at a (lookup t m)) same in
          rw (lookup-insert, y, field-assign s (get_or (lookup k m) no_data) a area, old)
            (elim (Bool-cases (area == name_of a)) [ inl z ↦ rw z refl | inr z ↦ rw z refl ])
    ]

parts-selected :
    (env bound scaling services : Option Secret) (u : Unpacked)
    → (parts env bound scaling services ≡ some u) ↔ (
        (env ≡ some u.env)
        × (bound ≡ some u.bound)
        × (scaling ≡ some u.scaling)
        × (services ≡ u.services))
parts-selected none bound scaling services u = (λ e. absurd (cc), λ h. absurd (cc h.0))
parts-selected (some e) none scaling services u = (λ e. absurd (cc), λ h. absurd (cc h.1))
parts-selected (some e) (some b) none services u = (λ e. absurd (cc), λ h. absurd (cc h.2))
parts-selected (some e) (some b) (some s) services u =
    (λ h. (cc, cc, cc, cc), λ h. made h.0 h.1 h.2 h.3)
  where
    made :
        some e ≡ some u.env
        → some b ≡ some u.bound
        → some s ≡ some u.scaling
        → services ≡ u.services
        → parts (some e) (some b) (some s) services ≡ some u
    made h k l m = cc

unpack-parts :
    (key : Text) (secrets : List Secret)
    → unpack (lookup key (make_auxiliary_map secrets []))
      ≡ parts
          (last_secret environment key secrets)
          (last_secret configuration key secrets)
          (last_secret scale key secrets)
          (last_secret service key secrets)
unfolding unpack lookup
unpack-parts key secrets =
    fields (lookup key (make_auxiliary_map secrets []))
    ∙ (rw (at environment, at configuration, at scale, at service) refl)
  where
    or_else-none : (o : Option Secret) → or_else o none ≡ o
    or_else-none none = refl
    or_else-none (some s) = refl

    at :
        (a : Area)
        → field_at a (lookup key (make_auxiliary_map secrets [])) ≡ last_secret a key secrets
    at a =
        make_auxiliary_map-last_secret a key secrets [] ∙ or_else-none (last_secret a key secrets)

    fields :
        (o : Option AppData)
        → unpack o
          ≡ parts
              (field_at environment o)
              (field_at configuration o)
              (field_at scale o)
              (field_at service o)
    fields none = refl
    fields (some d) = refl

-- With the map that makeAuxiliaryMap makes of a list of secrets, `aggregate` goes on with the secrets of
-- an application, rather than return no application at once, if and only if the list has secrets of the
-- three areas environment, configuration and scaling under the application's key. They are the last ones
-- of their area and key in the list, and so is that of the bound services, which may be missing.
pub unpack-last_secret :
    (key : Text) (secrets : List Secret) (u : Unpacked)
    → (unpack (lookup key (make_auxiliary_map secrets [])) ≡ some u) ↔ (
        (last_secret environment key secrets ≡ some u.env)
        × (last_secret configuration key secrets ≡ some u.bound)
        × (last_secret scale key secrets ≡ some u.scaling)
        × (last_secret service key secrets ≡ u.services))
unpack-last_secret key secrets u = rw (unpack-parts key secrets) (
    parts-selected (last_secret environment key secrets) (last_secret configuration key secrets)
      (last_secret scale key secrets) (last_secret service key secrets) u)
