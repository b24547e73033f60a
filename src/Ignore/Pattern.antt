-- ===== src/Ignore/Pattern.antt =====
-- helpers/ignore.go: the patterns, how a line becomes one, and how the patterns are collected.
use epinio.Base.{
  Bool, true, false, ◌||◌, List, [], ◌∷◌, ◌++◌, Option, none, some, if◌then◌else◌, Result, ok, err,
}
use epinio.Text.{Text, codes}
use epinio.Text.Affix.{is_empty, trim_space, trim_suffix, has_suffix}
use epinio.Text.Prefix.{has_prefix, trim_prefix}

pub record IgnorePattern : Type 0 where
  pub pattern : Text
  pub is_negation : Bool  -- negates previous matches
  pub is_dir : Bool  -- matches directories only

-- What stands behind the marks, for a text that is not empty.
unfoldable pub made_pattern : Text → Bool → Bool → Option IgnorePattern
made_pattern line is_negation is_dir =
    if is_empty line
    then none
    else some (record { pattern = line; is_negation = is_negation; is_dir = is_dir })

-- The mark of a directory behind a text.
unfoldable pub parse_directory : Text → Bool → Option IgnorePattern
unfolding made_pattern
parse_directory line is_negation =
    if has_suffix line (codes "/")
    then made_pattern (trim_space (trim_suffix line (codes "/"))) is_negation true
    else made_pattern line is_negation false

-- `parsePattern`, where nil is `none`.
unfoldable pub parse_pattern : Text → Option IgnorePattern
unfolding parse_directory
parse_pattern text =
    let line = trim_space text in
    let negated = trim_space (trim_prefix line (codes "!")) in
    if is_empty line || has_prefix line (codes "#")
    then none
    else if has_prefix line (codes "!")
    then (if is_empty negated then none else parse_directory negated true)
    else parse_directory line false

-- Parsing each line; the lines that are no pattern are left out.
pub parse_all : List Text → List IgnorePattern
unfolding parse_pattern
parse_all [] = []
parse_all (line ∷ lines) =
    let rest = parse_all lines in elim (parse_pattern line) [ none ↦ rest | some p ↦ p ∷ rest ]

-- What opening and scanning `.epinioignore` gives: no such file, another error, or the lines up to
-- the end or to an error of reading.
pub data IgnoreFile : Type 0 where
  missing : IgnoreFile
  not_opened : Text → IgnoreFile
  lines_of : List Text → Option Text → IgnoreFile

pub data LoadError : Type 0 where
  open_failed read_failed : Text → LoadError

-- `LoadIgnoreMatcher`; a matcher is the list of its patterns.
unfoldable pub load_ignore_matcher : IgnoreFile → List Text → Result LoadError (List IgnorePattern)
unfolding parse_all
load_ignore_matcher missing manifest_patterns = ok (parse_all manifest_patterns)
load_ignore_matcher (not_opened e) manifest_patterns = err (open_failed e)
load_ignore_matcher (lines_of lines none) manifest_patterns =
    ok (parse_all manifest_patterns ++ parse_all lines)
load_ignore_matcher (lines_of lines (some e)) manifest_patterns = err (read_failed e)
