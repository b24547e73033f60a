-- ===== src/Ignore.antt =====
-- helpers/ignore.go: which files of an application are left out of its archive.
pub mod Pattern
pub mod Matching
pub mod DoubleStar
pub mod Verdict
pub mod Parse
pub mod Shown
mod Tests
use epinio.Base.{
  Bool, true, false, ◌&&◌, ◌||◌, not, List, [], ◌∷◌, ◌++◌, Option, none, some, ◌≡◌, if◌then◌else◌,
  Result, ok, err,
}
use epinio.Text.{Text, codes, ◌==◌}
use epinio.Text.Affix.{is_empty}
use epinio.Paths.{rel}
use epinio.Ignore.Pattern.{IgnorePattern, parse_pattern}
use epinio.Ignore.Matching.{matches_pattern}

-- The loop over the patterns, with the two variables that it keeps.
unfoldable pub judge : List IgnorePattern → Text → Bool → Bool → Bool → Bool
judge [] path is_dir ignored matched_by_non_negation = ignored
judge (p ∷ ps) path is_dir ignored matched_by_non_negation =
    let matched = matches_pattern p.pattern path is_dir p.is_dir in
    let same = judge ps path is_dir ignored matched_by_non_negation in
    let unignored = judge ps path is_dir false false in
    let taken = judge ps path is_dir true true in
    if matched
    then (if p.is_negation then (if matched_by_non_negation then unignored else same) else taken)
    else same

-- `ShouldIgnore`
unfoldable pub should_ignore : List IgnorePattern → Text → Text → Bool → Bool
unfolding judge
should_ignore patterns base_dir file_path is_dir = elim (rel base_dir file_path) [
  | none ↦ false
  | some rel_path ↦
      if rel_path == codes "." || is_empty rel_path
      then false
      else judge patterns rel_path is_dir false false
]
