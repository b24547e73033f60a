-- ===== src/Ignore/Tests.antt =====
-- Runs of helpers/ignore.go and helpers/tar.go.
use epinio.Glob.{parts}
use epinio.Text.Prefix.{contains, has_prefix, trim_prefix, split_stars}
use epinio.Text.Split.{join, split}
use epinio.Base.{true, false, [], ◌∷◌, none, some, ◌≡◌, ◌↔◌, refl, List, ok, ◌&&◌, ◌||◌, not}
use epinio.Text.{codes, ◌==◌}
use epinio.Text.Affix.{
  is_empty, has_suffix, trim_space, trim_left, trim_right, is_space, trim_suffix,
}
use epinio.Text.Maps.{lookup, insert}
use epinio.Paths.{rel, join_entry, base}
use epinio.Ignore.Pattern.{IgnorePattern, parse_pattern, parse_all, load_ignore_matcher, lines_of}
use epinio.Ignore.Shown.{show_pattern, parse_pattern-show_pattern}
use epinio.Ignore.DoubleStar.{glob_matches, at_some, match_segments, match_glob_pattern}
use epinio.Ignore.DoubleStar.Windows.{Occurs, at_some_iff}
use epinio.Ignore.DoubleStar.Covers.{Covers, match_segments_iff}
use epinio.Ignore.Matching.{match_part, matches_pattern}
use epinio.Ignore.{should_ignore, judge}
use epinio.Ignore.Verdict.{
  verdict, find_last, matches, should_ignore_last, load_ignore_matcher-verdict,
}
use epinio.Archive.{visit, Node, file, folder, end, entry, sources_of}
use epinio.Archive.Packed.{Packed, sources_of_iff}

abbrev logs : IgnorePattern
logs = record { pattern = codes "*.log"; is_negation = false; is_dir = false }

abbrev keep_log : IgnorePattern
keep_log = record { pattern = codes "keep.log"; is_negation = true; is_dir = false }

abbrev modules : IgnorePattern
modules = record { pattern = codes "node_modules"; is_negation = false; is_dir = true }

abbrev patterns : List IgnorePattern
patterns = logs ∷ modules ∷ keep_log ∷ []

parse_test :
    (parse_pattern (codes " ! keep.log ") ≡ some keep_log)
    × (parse_pattern (codes "node_modules/") ≡ some modules)
    × (parse_pattern (codes "# a comment") ≡ none)
    × (parse_pattern (codes "!/") ≡ none)
unfolding parse_pattern trim_space trim_right trim_left is_space has_prefix trim_prefix has_suffix
    ◌==◌ trim_suffix
parse_test = (refl, refl, refl, refl)

should_ignore_test :
    (should_ignore patterns (codes "/app") (codes "/app/out/a.log") false ≡ true)
    × (should_ignore patterns (codes "/app") (codes "/app/keep.log") false ≡ false)
    × (should_ignore patterns (codes "/app") (codes "/app/node_modules") true ≡ true)
    × (should_ignore patterns (codes "/app") (codes "/app/node_modules") false ≡ false)
    × (should_ignore patterns (codes "/app") (codes "/app") true ≡ false)
    × (should_ignore patterns (codes "/app") (codes "/other/a.log") false ≡ true)
unfolding should_ignore rel split ◌==◌ join matches_pattern has_prefix contains glob_matches parts
should_ignore_test = (refl, refl, refl, refl, refl, refl)

-- Behind a leading `**`, another `**` stands for one part of the path and not for any number.
double_star_test :
    (matches_pattern (codes "a/**/b/**/c") (codes "a/x/y/b/c") false false ≡ true)
    × (matches_pattern (codes "src/**/*.js") (codes "src/a/b/c.js") false false ≡ true)
    × (matches_pattern (codes "**/a/**/b") (codes "a/x/b") false false ≡ true)
    × (matches_pattern (codes "**/a/**/b") (codes "a/x/y/b") false false ≡ false)
    × (matches_pattern (codes "a/**/b/**") (codes "a/x/b/c") false false ≡ false)
unfolding matches_pattern has_prefix contains match_glob_pattern split_stars has_suffix ◌==◌
    trim_right trim_left split parts trim_prefix trim_suffix
double_star_test = (refl, refl, refl, refl, refl)

abbrev tree : Node
tree = folder (
    entry (codes ".git") (folder (entry (codes "HEAD") file end)) (
      entry (codes "main.go") file
        (entry (codes "node_modules") (folder (entry (codes "x.js") file end)) end)))

sources_of_test :
    sources_of patterns (codes "/app") tree ≡ (codes "/app/main.go", codes "main.go") ∷ []
unfolding sources_of visit rel split ◌==◌ base trim_right should_ignore join_entry join
    matches_pattern has_prefix contains glob_matches parts insert
sources_of_test = refl

should_ignore_last_example :
    should_ignore patterns (codes "/app") (codes "/app/out/a.log") false
    ≡ elim (rel (codes "/app") (codes "/app/out/a.log")) [
      | none ↦ false
      | some path ↦
          not (path == codes "." || is_empty path)
          && verdict (find_last (matches path false) patterns) false
    ]
should_ignore_last_example =
    should_ignore_last patterns (codes "/app") (codes "/app/out/a.log") false

loaded_test :
    load_ignore_matcher (lines_of (codes "!keep.log" ∷ []) none) (codes "*.log" ∷ [])
    ≡ ok (logs ∷ keep_log ∷ [])
unfolding load_ignore_matcher trim_space trim_right trim_left is_space has_prefix has_suffix ◌==◌
    trim_prefix
loaded_test = refl

load_ignore_matcher-verdict_example :
    judge (logs ∷ keep_log ∷ []) (codes "keep.log") false false false
    ≡ verdict (find_last (matches (codes "keep.log") false) (parse_all (codes "!keep.log" ∷ []))) (
        verdict
          (find_last (matches (codes "keep.log") false) (parse_all (codes "*.log" ∷ [])))
          false)
load_ignore_matcher-verdict_example =
    load_ignore_matcher-verdict (codes "!keep.log" ∷ []) (codes "*.log" ∷ []) (logs ∷ keep_log ∷ [])
      (codes "keep.log") false loaded_test

match_segments_iff_example :
    (match_segments
        (codes "a" ∷ codes "b/c" ∷ [])
        (codes "a" ∷ codes "x" ∷ codes "b" ∷ codes "c" ∷ [])
      ≡ true)
    ↔ Covers (codes "a" ∷ codes "b/c" ∷ []) (codes "a" ∷ codes "x" ∷ codes "b" ∷ codes "c" ∷ [])
match_segments_iff_example =
    match_segments_iff (codes "a" ∷ codes "b/c" ∷ [])
      (codes "a" ∷ codes "x" ∷ codes "b" ∷ codes "c" ∷ [])

at_some_iff_example :
    (at_some match_part
        (codes "out" ∷ codes "*.o" ∷ [])
        (codes "lib" ∷ codes "out" ∷ codes "m.o" ∷ [])
      ≡ true)
    ↔ Occurs match_part
        (codes "out" ∷ codes "*.o" ∷ [])
        (codes "lib" ∷ codes "out" ∷ codes "m.o" ∷ [])
at_some_iff_example =
    at_some_iff match_part (codes "out" ∷ codes "*.o" ∷ [])
      (codes "lib" ∷ codes "out" ∷ codes "m.o" ∷ [])

parse_pattern-show_pattern_example : parse_pattern (show_pattern modules) ≡ some modules
parse_pattern-show_pattern_example =
    parse_pattern-show_pattern (codes "node_modules/") modules parse_test.1

sources_of_iff_example :
    (lookup (codes "/app/main.go") (sources_of patterns (codes "/app") tree)
      ≡ some (codes "main.go"))
    ↔ Packed patterns (codes "/app") (codes "/app") tree (codes "/app/main.go") (codes "main.go")
sources_of_iff_example =
    sources_of_iff patterns (codes "/app") tree (codes "/app/main.go") (codes "main.go")
