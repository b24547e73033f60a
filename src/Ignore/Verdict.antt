-- ===== src/Ignore/Verdict.antt =====
-- helpers/ignore.go: which pattern decides about a path.
use epinio.Base.{
  Bool, true, false, ◌&&◌, ◌||◌, not, List, [], ◌∷◌, ◌++◌, Option, none, some, ◌≡◌, refl, inl, inr,
  if◌then◌else◌, arith, Option-cases, ok,
}
use epinio.Text.{Text, codes, ◌==◌}
use epinio.Text.Affix.{is_empty}
use epinio.Paths.{rel}
use epinio.Ignore.Pattern.{IgnorePattern, parse_all, lines_of, load_ignore_matcher}
use epinio.Ignore.Matching.{matches_pattern}
use epinio.Ignore.{judge, should_ignore}

abbrev pub matches : Text → Bool → IgnorePattern → Bool
matches path is_dir p = matches_pattern p.pattern path is_dir p.is_dir

abbrev or_else : Option IgnorePattern → Option IgnorePattern → Option IgnorePattern
or_else none m = m
or_else (some q) m = some q

-- The last of the patterns that passes a test.
abbrev pub find_last : (IgnorePattern → Bool) → List IgnorePattern → Option IgnorePattern
find_last test [] = none
find_last test (p ∷ ps) = or_else (find_last test ps) (if test p then some p else none)

-- What the last match says, or else a default.
abbrev pub verdict : Option IgnorePattern → Bool → Bool
verdict none default = default
verdict (some p) default = not p.is_negation

-- The two variables of the loop have one value in every round.
judge-verdict :
    (ps : List IgnorePattern) (path : Text) (is_dir b : Bool)
    → judge ps path is_dir b b ≡ verdict (find_last (matches path is_dir) ps) b
unfolding judge
judge-verdict [] path is_dir b = refl
judge-verdict (p ∷ ps) path is_dir b = elim (Option-cases (find_last (matches path is_dir) ps)) [
  | inl e ↦ ground (
    arith,
    e,
    judge-verdict ps path is_dir b,
    judge-verdict ps path is_dir true,
    judge-verdict ps path is_dir false,
  )
  | inr (q, e) ↦ ground (
    arith,
    e,
    judge-verdict ps path is_dir b,
    judge-verdict ps path is_dir true,
    judge-verdict ps path is_dir false,
  )
]

-- A path is ignored exactly if it can be made relative to the base directory, the relative path is not
-- the directory itself, some pattern matches the relative path, and the last pattern that does is no
-- negation.
pub should_ignore_last :
    (ps : List IgnorePattern) (base_dir file_path : Text) (is_dir : Bool)
    → should_ignore ps base_dir file_path is_dir ≡ elim (rel base_dir file_path) [
      | none ↦ false
      | some path ↦
          not (path == codes "." || is_empty path)
          && verdict (find_last (matches path is_dir) ps) false
    ]
unfolding should_ignore
should_ignore_last ps base_dir file_path is_dir = go (rel base_dir file_path)
  where
    go :
        (o : Option Text)
        → elim o [
          | none ↦ false
          | some path ↦
              if path == codes "." || is_empty path then false else judge ps path is_dir false false
        ]
          ≡ elim o [
            | none ↦ false
            | some path ↦
                not (path == codes "." || is_empty path)
                && verdict (find_last (matches path is_dir) ps) false
          ]
    go none = refl
    go (some path) = ground (arith, judge-verdict ps path is_dir false)

find_last-append :
    (test : IgnorePattern → Bool) (ps qs : List IgnorePattern)
    → find_last test (ps ++ qs) ≡ or_else (find_last test qs) (find_last test ps)
find_last-append test [] qs = elim (Option-cases (find_last test qs)) [
  | inl e ↦ rw e refl
  | inr (q, e) ↦ rw e refl
]
find_last-append test (p ∷ ps) qs =
    rw (find_last-append test ps qs) (or_else_assoc (find_last test qs) (find_last test ps) _)
  where
    or_else_assoc :
        (a b c : Option IgnorePattern) → or_else (or_else a b) c ≡ or_else a (or_else b c)
    or_else_assoc none b c = refl
    or_else_assoc (some q) b c = refl

loaded :
    (lines manifest : List Text) (ps : List IgnorePattern)
    → load_ignore_matcher (lines_of lines none) manifest ≡ ok ps
    → ps ≡ parse_all manifest ++ parse_all lines
unfolding load_ignore_matcher
loaded lines manifest ps h = cc

-- Where the file of an application and its manifest both have patterns, the file comes first: what
-- the last match of the file's lines says about a path is the verdict of all patterns together, and
-- the manifest decides only about the paths that no line of the file matches.
pub load_ignore_matcher-verdict :
    (lines manifest : List Text) (ps : List IgnorePattern) (path : Text) (is_dir : Bool)
    → load_ignore_matcher (lines_of lines none) manifest ≡ ok ps
    → judge ps path is_dir false false
      ≡ verdict
          (find_last (matches path is_dir) (parse_all lines))
          (verdict (find_last (matches path is_dir) (parse_all manifest)) false)
load_ignore_matcher-verdict lines manifest ps path is_dir h =
    rw
      (
        loaded lines manifest ps h,
        judge-verdict,
        find_last-append (matches path is_dir) (parse_all manifest) (parse_all lines),
      )
      (overridden (find_last (matches path is_dir) (parse_all lines)) _)
  where
    overridden :
        (o m : Option IgnorePattern) → verdict (or_else o m) false ≡ verdict o (verdict m false)
    overridden none m = refl
    overridden (some q) m = refl
