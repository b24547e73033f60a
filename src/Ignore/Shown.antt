-- ===== src/Ignore/Shown.antt =====
-- helpers/ignore.go: the line that a pattern is written as.
use epinio.Base.{
  ℕ, Bool, true, false, ◌||◌, not, [], ◌∷◌, ◌++◌, some, ◌≡◌, refl, if◌then◌else◌, eqb, arith,
  append-nil,
}
use epinio.Text.{Text, codes}
use epinio.Text.Affix.{
  is_empty, is_space, IsTrimmed, has_suffix, trim_space_id, trim_suffix-append, has_suffix-append,
  EndsOutside-append,
}
use epinio.Text.Prefix.{has_prefix, trim_prefix}
use epinio.Ignore.Pattern.{IgnorePattern, made_pattern, parse_directory, parse_pattern}
use epinio.Ignore.Parse.{IsNormal, parse_pattern-IsNormal}

-- The line of a pattern.
pub show_pattern : IgnorePattern → Text
show_pattern p =
    (if p.is_negation then codes "!" else []) ++ (p.pattern ++ (if p.is_dir then codes "/" else []))

-- The text of a pattern with the mark of a directory.
abbrev body : IgnorePattern → Text
body p = p.pattern ++ (if p.is_dir then codes "/" else [])

parse_directory-body :
    (pattern : Text) (is_negation is_dir : Bool)
    → is_empty pattern ≡ false
    → IsTrimmed pattern
    → (is_dir || not (has_suffix pattern (codes "/"))) ≡ true
    → parse_directory (pattern ++ (if is_dir then codes "/" else [])) is_negation
      ≡ some (record { pattern = pattern; is_negation = is_negation; is_dir = is_dir })
unfolding parse_directory made_pattern
parse_directory-body pattern is_negation true e t u =
    rw (has_suffix-append pattern b'/', trim_suffix-append pattern b'/', trim_space_id pattern t, e)
      refl
parse_directory-body pattern is_negation false e t u =
    let none_left : has_suffix pattern (codes "/") ≡ false = ground arith in
    rw (append-nil, none_left, e) refl

body-IsTrimmed :
    (c : ℕ) (s : Text) (is_dir : Bool)
    → IsTrimmed (c ∷ s)
    → IsTrimmed (c ∷ s ++ (if is_dir then codes "/" else []))
unfolding is_space
body-IsTrimmed c s true t = (t.0, EndsOutside-append is_space (c ∷ s) b'/' [] refl)
body-IsTrimmed c s false t = rw append-nil t

parse_pattern_shown :
    (c : ℕ) (s : Text) (is_negation is_dir : Bool)
    → IsNormal (record { pattern = c ∷ s; is_negation = is_negation; is_dir = is_dir })
    → parse_pattern
        (show_pattern (record { pattern = c ∷ s; is_negation = is_negation; is_dir = is_dir }))
      ≡ some (record { pattern = c ∷ s; is_negation = is_negation; is_dir = is_dir })
unfolding parse_pattern show_pattern has_prefix trim_prefix is_space
parse_pattern_shown c s true is_dir n =
    let t = body-IsTrimmed c s is_dir n.trimmed in
    rw
      (
        trim_space_id (b'!' ∷ c ∷ s ++ (if is_dir then codes "/" else [])) (
          refl,
          EndsOutside-append is_space (b'!' ∷ []) c (s ++ (if is_dir then codes "/" else [])) t.1,
        ),
        trim_space_id (c ∷ s ++ (if is_dir then codes "/" else [])) t,
      )
      (parse_directory-body (c ∷ s) true is_dir n.non_empty n.trimmed n.unslashed)
parse_pattern_shown c s false is_dir n =
    let t = body-IsTrimmed c s is_dir n.trimmed in
    let hash : eqb c b'#' ≡ false = ground (arith, n.unmarked) in
    let bang : eqb c b'!' ≡ false = ground (arith, n.unnegated) in
    rw (trim_space_id (c ∷ s ++ (if is_dir then codes "/" else [])) t, hash, bang)
      (parse_directory-body (c ∷ s) false is_dir n.non_empty n.trimmed n.unslashed)

show_pattern_read : (p : IgnorePattern) → IsNormal p → parse_pattern (show_pattern p) ≡ some p
show_pattern_read p n = go p.pattern p.is_negation p.is_dir n
  where
    go :
        (pattern : Text) (is_negation is_dir : Bool)
        → IsNormal (record { pattern = pattern; is_negation = is_negation; is_dir = is_dir })
        → parse_pattern (
            show_pattern (record { pattern = pattern; is_negation = is_negation; is_dir = is_dir }))
          ≡ some (record { pattern = pattern; is_negation = is_negation; is_dir = is_dir })
    go [] is_negation is_dir n = absurd (cc (n.non_empty))
    go (c ∷ s) is_negation is_dir n = parse_pattern_shown c s is_negation is_dir n

-- A pattern that was parsed from any line, written back with its marks and parsed again, is the
-- same pattern.
pub parse_pattern-show_pattern :
    (text : Text) (p : IgnorePattern)
    → parse_pattern text ≡ some p
    → parse_pattern (show_pattern p) ≡ some p
parse_pattern-show_pattern text p h = show_pattern_read p (parse_pattern-IsNormal text p h)
