-- ===== src/Logging.antt =====
-- internal/application/application.go: the patterns of the containers whose logs are wanted.
pub mod Names
mod Tests
use epinio.Base.{
  Bool, true, false, not, List, [], ◌∷◌, ◌++◌, Option, none, some, ◌≡◌, any, eqb, if◌then◌else◌,
  Result, ok, err, map, filter,
}
use epinio.Text.{Text, codes}
use epinio.Text.Affix.{is_empty, trim_space}
use epinio.Text.Split.{join}

-- The filters of `LogParameters`.
pub record LogParameters : Type 0 where
  pub include_containers : List Text
  pub exclude_containers : List Text

pub data LogError : Type 0 where
  no_valid_names invalid_exclude : LogError

abbrev pub special : Text
special = codes ".*+?^$|[]{}()" ++ 92 ∷ []

-- `strings.ContainsAny` of the special characters of a regular expression.
abbrev pub has_special : Text → Bool
has_special = any (λ c. any (λ d. eqb d c) special)

-- `regexp.QuoteMeta`
unfoldable pub quote_meta : Text → Text
quote_meta [] = []
quote_meta (c ∷ s) =
    let rest = quote_meta s in if any (λ d. eqb d c) special then 92 ∷ c ∷ rest else c ∷ rest

abbrev pub escaped : Text → Text
escaped container = if has_special container then container else quote_meta container

unfoldable pub valid_names : List Text → List Text
valid_names names = filter (λ s. not (is_empty s)) (map trim_space names)

abbrev pub include_pattern : List Text → Result LogError (Text × Bool)
include_pattern [] = err no_valid_names
include_pattern (n ∷ names) = ok (join (map escaped (n ∷ names)) (codes "|"), true)

-- `buildContainerIncludePattern`
unfoldable pub build_container_include_pattern :
    Option LogParameters → Result LogError (Text × Bool)
unfolding quote_meta valid_names
build_container_include_pattern none = ok (codes ".*", false)
build_container_include_pattern (some p) = elim p.include_containers [
  | [] ↦ ok (codes ".*", false)
  | c ∷ cs ↦ include_pattern (valid_names (c ∷ cs))
]

abbrev pub user_exclusions : Option LogParameters → List Text
user_exclusions none = []
user_exclusions (some p) = map escaped (valid_names p.exclude_containers)

abbrev pub compiled : {R : Type 0} → Option R → Result LogError (Option R)
compiled none = err invalid_exclude
compiled (some r) = ok (some r)

-- `buildContainerExcludePattern`, with the compiler of regular expressions.
unfoldable pub build_container_exclude_pattern :
    {R : Type 0} → (Text → Option R) → Option LogParameters → Bool → Result LogError (Option R)
unfolding quote_meta valid_names
build_container_exclude_pattern compile p has_include =
    elim ((if has_include then [] else codes "linkerd-(proxy|init)" ∷ []) ++ user_exclusions p) [
      | [] ↦ ok none
      | e ∷ es ↦ compiled (compile (join (e ∷ es) (codes "|")))
    ]
