-- ===== src/Ignore/DoubleStar.antt =====
-- helpers/ignore.go: patterns of several parts, and patterns with `**`.
pub mod Windows
pub mod Covers
use epinio.Base.{
  ◌+◌, Bool, true, false, ◌&&◌, ◌||◌, not, List, [], ◌∷◌, ◌++◌, Option, none, some, ◌≡◌,
  if◌then◌else◌, get_or, eqb, leb, ltb, length, drop, any, filter, map,
}
use epinio.Text.{Text, codes, ◌==◌}
use epinio.Text.Affix.{is_empty, trim_left, trim_right, trim_suffix, has_suffix}
use epinio.Text.Prefix.{has_prefix, trim_prefix, split_stars}
use epinio.Text.Split.{split}
use epinio.Glob.{match}

-- `filepath.Match` without an error, and with the answer true.
unfoldable pub glob_matches : Text → Text → Bool
unfolding match
glob_matches pattern part = get_or (match pattern part) false

-- The inner loop: each part of the pattern against the part of the path at its place.
unfoldable pub window : (Text → Text → Bool) → List Text → List Text → Bool
window test [] path = true
window test (p ∷ ps) [] = false
window test (p ∷ ps) (q ∷ qs) = test p q && window test ps qs

-- The outer loop: the positions at which the pattern is not longer than the rest of the path.
unfoldable pub at_some : (Text → Text → Bool) → List Text → List Text → Bool
unfolding window
at_some test ps [] = leb (length ps) 0
at_some test ps (q ∷ qs) =
    let later = at_some test ps qs in
    if ltb (length (q ∷ qs)) (length ps) then false else window test ps (q ∷ qs) || later

-- `matchPatternAnywhere`
pub match_pattern_anywhere : Text → Text → Bool
unfolding at_some glob_matches
match_pattern_anywhere pattern path =
    let path_parts = split path b'/' in
    let pattern_parts = split pattern b'/' in
    if pattern == path
    then true
    else if eqb (length pattern_parts) 1
    then any (λ part. glob_matches pattern part) path_parts
    else at_some glob_matches pattern_parts path_parts

abbrev pub first_matches : List Text → Text → Bool
first_matches [] part = false
first_matches (p ∷ ps) part = glob_matches p part

-- One segment from a start position on, and the segments behind it, which `next` matches.
unfoldable pub starts_here : List Text → (List Text → Bool) → List Text → Bool
unfolding window
starts_here parts next path =
    leb (length parts) (length path)
    && window glob_matches parts path
    && next (drop (length parts) path)

-- The loop of `matchSegmentsRecursive` over the start positions; `last` says that no segment
-- follows.
unfoldable pub from_each : List Text → Bool → (List Text → Bool) → List Text → Bool
unfolding starts_here
from_each parts last next [] =
    if last && eqb (length parts) 1 then false else starts_here parts next []
from_each parts last next (q ∷ qs) =
    let later = from_each parts last next qs in
    if last && eqb (length parts) 1
    then any (first_matches parts) (q ∷ qs)
    else starts_here parts next (q ∷ qs) || later

abbrev pub no_segments : List Text → Bool
no_segments [] = true
no_segments (s ∷ ss) = false

-- `matchSegmentsRecursive` on what is left of the segments and of the parts of the path.
unfoldable pub match_segments : List Text → List Text → Bool
unfolding from_each
match_segments [] path = true
match_segments (s ∷ ss) [] = false
match_segments (s ∷ ss) (q ∷ qs) =
    from_each (split s b'/') (no_segments ss) (match_segments ss) (q ∷ qs)

abbrev trim_slashes : Text → Text
trim_slashes s = trim_right (λ c. eqb c b'/') (trim_left (λ c. eqb c b'/') s)

-- `matchWithDoubleStar`
pub match_with_double_star : List Text → Text → Bool
unfolding match_segments
match_with_double_star segments path =
    let non_empty = filter (λ s. not (is_empty s)) (map trim_slashes segments) in
    if no_segments non_empty then true else match_segments non_empty (split path b'/')

-- `matchGlobPattern`, whose two special cases come first.
unfoldable pub match_glob_pattern : Text → Text → Bool
unfolding match_pattern_anywhere match_with_double_star
match_glob_pattern pattern path =
    let prefix = trim_suffix pattern (codes "/**") in
    let segments = split_stars pattern in
    if eqb (length segments) 1
    then match_pattern_anywhere pattern path
    else if has_prefix pattern (codes "**/")
    then match_pattern_anywhere (trim_prefix pattern (codes "**/")) path
    else if has_suffix pattern (codes "/**")
    then has_prefix path (prefix ++ codes "/") || path == prefix
    else match_with_double_star segments path
