-- ===== src/Ignore/Matching.antt =====
-- helpers/ignore.go: whether one pattern matches a path.
use epinio.Base.{Bool, true, false, ◌&&◌, not, [], ◌∷◌, ◌++◌, if◌then◌else◌, eqb, length, any}
use epinio.Text.{Text, codes, ◌==◌}
use epinio.Text.Prefix.{has_prefix, trim_prefix, contains}
use epinio.Text.Split.{split}
use epinio.Ignore.DoubleStar.{glob_matches, at_some, match_glob_pattern}

-- `matchPart`
unfoldable pub match_part : Text → Text → Bool
match_part pattern part = if pattern == part then true else glob_matches pattern part

-- `matchAtStart`
pub match_at_start : Text → Text → Bool
match_at_start pattern path =
    if pattern == path
    then true
    else if has_prefix path (pattern ++ codes "/")
    then true
    else if glob_matches pattern path
    then true
    else elim (split path b'/') [ [] ↦ false | first ∷ rest ↦ glob_matches pattern first ]

-- `matchesPattern`; on Unix `ToSlash` changes nothing.
unfoldable pub matches_pattern : Text → Text → Bool → Bool → Bool
unfolding match_part match_at_start at_some
matches_pattern pattern rel_path path_is_dir pattern_is_dir =
    let path_parts = split rel_path b'/' in
    let pattern_parts = split pattern b'/' in
    if pattern_is_dir && not path_is_dir
    then false
    else if has_prefix pattern (codes "/")
    then match_at_start (trim_prefix pattern (codes "/")) rel_path
    else if contains pattern (codes "**")
    then match_glob_pattern pattern rel_path
    else if eqb (length pattern_parts) 1
    then any (λ part. match_part pattern part) path_parts
    else at_some match_part pattern_parts path_parts
