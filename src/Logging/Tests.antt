-- ===== src/Logging/Tests.antt =====
-- Runs of buildContainerIncludePattern and buildContainerExcludePattern.
use epinio.Text.Split.{join}
use epinio.Text.Affix.{trim_right, trim_space, is_space, trim_left}
use epinio.Base.{[], ◌∷◌, none, some, ◌≡◌, refl, ok, err, true, false}
use epinio.Text.{codes}
use epinio.Logging.{
  LogParameters, build_container_include_pattern, build_container_exclude_pattern, no_valid_names,
  valid_names,
}
use epinio.Logging.Names.{build_container_include_pattern-joined}

abbrev web_or_all : LogParameters
web_or_all = record {
  include_containers = codes " web-1" ∷ codes " " ∷ codes "app.*" ∷ [];
  exclude_containers = codes "side" ∷ [];
}

blank_test :
    build_container_include_pattern
      (some (record { include_containers = codes " " ∷ []; exclude_containers = [] }))
    ≡ err no_valid_names
unfolding build_container_include_pattern trim_space trim_right trim_left is_space
blank_test = refl

exclude_test :
    (build_container_exclude_pattern (λ s. some s) (some web_or_all) false
      ≡ ok (some (codes "linkerd-(proxy|init)|side")))
    × (build_container_exclude_pattern (λ s. some s) none true ≡ ok none)
unfolding build_container_exclude_pattern join trim_space trim_right trim_left is_space
exclude_test = (refl, refl)

build_container_include_pattern-joined_example :
    build_container_include_pattern (some web_or_all) ≡ ok (codes "web-1|app.*", true)
unfolding valid_names trim_space trim_right trim_left is_space join
build_container_include_pattern-joined_example =
    build_container_include_pattern-joined (codes " web-1") (codes " " ∷ codes "app.*" ∷ [])
      (codes "side" ∷ [])
