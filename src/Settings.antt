-- ===== src/Settings.antt =====
-- The custom values of an application against the declarations of its chart: ValidateField and
-- validateRange of internal/helm/helm.go, ValidateCV of internal/application/application.go.
pub mod Nested
pub mod Checked
pub mod Fields
use epinio.Base.{
  ℕ, zero, suc, length, Bool, true, false, ◌&&◌, ◌||◌, not, List, [], ◌∷◌, ◌++◌, Option, none, some,
  ◌≡◌, if◌then◌else◌, Result, ok, err, eqb, any,
}
use epinio.Text.{Text, codes, ◌==◌, elem}
use epinio.Text.Affix.{is_empty}
use epinio.Text.Split.{split, join}
use epinio.Text.Maps.{Map, lookup}
use epinio.Integers.{ℤ, parse_int64}

pub record ChartSetting : Type 0 where
  pub type : Text
  pub minimum : Text
  pub maximum : Text
  pub enum : List Text

-- The 64 bit floating point numbers: `strconv.ParseFloat`, the conversion of an `int64`, and `<`.
pub record Floats (F : Type 0) : Type 0 where
  pub parse_float : Text → Option F
  pub float_of_int : ℤ → F
  pub less : F → F → Bool

-- The errors of a setting, with its key.
pub data SettingError : Type 0 where
  illegal_string not_boolean not_integer not_number : Text → Text → SettingError
  bad_minimum bad_maximum : Text → Text → SettingError
  too_small too_large : Text → Text → SettingError
  unknown_type : Text → Text → SettingError
  not_known : Text → SettingError

-- A value with its type.
pub data Value (F : Type 0) : Type 0 where
  text : Text → Value F
  flag : Bool → Value F
  integer : ℤ → Value F
  number : F → Value F

-- `strconv.ParseBool`
unfoldable pub parse_bool : Text → Option Bool
parse_bool s =
    if elem s (codes "1" ∷ codes "t" ∷ codes "T" ∷ codes "true" ∷ codes "TRUE" ∷ codes "True" ∷ [])
    then some true
    else if elem s
        (codes "0" ∷ codes "f" ∷ codes "F" ∷ codes "false" ∷ codes "FALSE" ∷ codes "False" ∷ [])
    then some false
    else none

-- `ReplaceAllString(key, "")` for the regular expression `\[[^]]\]`, on a key of ASCII bytes.
unfoldable pub strip_indices : Text → Text
strip_indices [] = []
strip_indices (a ∷ []) = a ∷ []
strip_indices (a ∷ b ∷ []) = a ∷ b ∷ []
strip_indices (a ∷ b ∷ c ∷ s) =
    let behind = strip_indices s in
    let next = strip_indices (b ∷ c ∷ s) in
    if eqb a b'[' && (not (eqb b b']') && eqb c b']') then behind else a ∷ next

abbrev pub is_map : Option ChartSetting → Bool
is_map none = false
is_map (some spec) = spec.type == codes "map"

abbrev pub without_last : List Text → List Text
without_last [] = []
without_last (p ∷ []) = []
without_last (p ∷ q ∷ ps) = p ∷ without_last (q ∷ ps)

-- The loop that drops the last piece until a map is found or none is left. The number of pieces is
-- fuel enough, as each round takes one.
unfoldable pub in_map : ℕ → Map ChartSetting → List Text → Bool
in_map zero decl pieces = false
in_map (suc fuel) decl [] = false
in_map (suc fuel) decl (p ∷ ps) =
    let shorter = in_map fuel decl (without_last (p ∷ ps)) in
    if is_map (lookup (join (p ∷ ps) (codes ".")) decl) then true else shorter

-- Whether a prefix of the key, up to one of its dots, is declared to be a map.
abbrev pub nested_map : Map ChartSetting → Text → Bool
nested_map decl keybase =
    let pieces = without_last (split keybase b'.') in in_map (length pieces) decl pieces

abbrev pub first_error : Option SettingError → Option SettingError → Option SettingError
first_error (some e) other = some e
first_error none other = other

module _ {F : Type 0} (floats : Floats F) where
  -- The value on one side of a bound that is given: a bound that is no number is an error.
  unfoldable pub bounded : Text → (F → Bool) → SettingError → SettingError → Option SettingError
  bounded bound outside bad error =
      if is_empty bound then none else elim (floats.parse_float bound) [
        | none ↦ some bad
        | some b ↦ if outside b then some error else none
      ]

  -- `validateRange`, where nil is `none`.
  unfoldable pub validate_range : F → Text → Text → Text → Text → Option SettingError
  validate_range v key value min max =
      first_error (bounded min (λ b. floats.less v b) (bad_minimum key min) (too_small key value))
        (bounded max (λ b. floats.less b v) (bad_maximum key max) (too_large key value))

  abbrev in_range : Option SettingError → Value F → Result SettingError (Value F)
  in_range none v = ok v
  in_range (some e) v = err e

  -- `ValidateField`
  unfoldable pub validate_field : Text → Text → ChartSetting → Result SettingError (Value F)
  unfolding validate_range
  validate_field key value spec =
      if spec.type == codes "string"
      then elim spec.enum [
        | [] ↦ ok (text value)
        | allowed ∷ more ↦
            if elem value (allowed ∷ more) then ok (text value) else err (illegal_string key value)
      ]
      else if spec.type == codes "bool"
      then elim (parse_bool value) [ none ↦ err (not_boolean key value) | some b ↦ ok (flag b) ]
      else if spec.type == codes "integer"
      then elim (parse_int64 value) [
        | none ↦ err (not_integer key value)
        | some i ↦
            in_range (validate_range (floats.float_of_int i) key value spec.minimum spec.maximum)
              (integer i)
      ]
      else if spec.type == codes "number"
      then elim (floats.parse_float value) [
        | none ↦ err (not_number key value)
        | some x ↦ in_range (validate_range x key value spec.minimum spec.maximum) (number x)
      ]
      else err (unknown_type key spec.type)

  abbrev pub error_of : Result SettingError (Value F) → List SettingError
  error_of (ok v) = []
  error_of (err e) = e ∷ []

  -- The issues with one custom value, by what its key is declared to be.
  unfoldable pub checked : Map ChartSetting → Text → Text → Option ChartSetting → List SettingError
  unfolding validate_field in_map
  checked decl keybase value none = if nested_map decl keybase then [] else not_known keybase ∷ []
  checked decl keybase value (some spec) =
      if spec.type == codes "map" then [] else error_of (validate_field keybase value spec)

  unfoldable pub issues_of : Map ChartSetting → Text → Text → List SettingError
  unfolding checked
  issues_of decl key value =
      checked decl (strip_indices key) value (lookup (strip_indices key) decl)

  -- `ValidateCV`
  unfoldable pub validate_cv : Map Text → Map ChartSetting → List SettingError
  unfolding issues_of
  validate_cv [] decl = []
  validate_cv ((key, value) ∷ cv) decl = issues_of decl key value ++ validate_cv cv decl
