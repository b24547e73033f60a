-- ===== src/Ignore/Parse.antt =====
-- helpers/ignore.go: what parsePattern returns.
use epinio.Base.{
  ℕ, zero, suc, ◌-◌, length, take, subst, Bool, true, false, ◌&&◌, ◌||◌, not, [], ◌∷◌, none, some,
  ◌≡◌, refl, inl, inr, if◌then◌else◌, arith, Bool-cases,
}
use epinio.Text.{Text, codes}
use epinio.Text.Affix.{
  is_empty, is_space, IsTrimmed, StartsOutside, trim_left, trim_right, trim_space, trim_suffix,
  has_suffix, trim_left-StartsOutside, trim_left_id, trim_right-StartsOutside,
  trim_right-EndsOutside,
}
use epinio.Text.Prefix.{has_prefix, trim_prefix}
use epinio.Ignore.Pattern.{IgnorePattern, made_pattern, parse_directory, parse_pattern}

-- What the patterns that are parsed have in common.
pub record IsNormal (p : IgnorePattern) : Type 0 where
  pub non_empty : is_empty p.pattern ≡ false
  pub trimmed : IsTrimmed p.pattern
  pub unmarked : (p.is_negation || not (has_prefix p.pattern (codes "#"))) ≡ true
  pub unnegated : (p.is_negation || not (has_prefix p.pattern (codes "!"))) ≡ true
  pub unslashed : (p.is_dir || not (has_suffix p.pattern (codes "/"))) ≡ true

trim_space-IsTrimmed : (s : Text) → IsTrimmed (trim_space s)
unfolding trim_space
trim_space-IsTrimmed s = (
  trim_right-StartsOutside is_space (trim_left is_space s) (trim_left-StartsOutside is_space s),
  trim_right-EndsOutside is_space (trim_left is_space s),
)

-- What is cut off behind leaves the first byte, unless nothing is left.
take_front :
    (b n : ℕ) (s : Text)
    → is_empty (take n s) ≡ false
    → has_prefix (take n s) (b ∷ []) ≡ has_prefix s (b ∷ [])
unfolding has_prefix
take_front b zero s h = absurd (cc)
take_front b (suc n) [] h = refl
take_front b (suc n) (c ∷ s) h = refl

trim_right_front :
    (b : ℕ) (cut : ℕ → Bool) (s : Text)
    → is_empty (trim_right cut s) ≡ false
    → has_prefix (trim_right cut s) (b ∷ []) ≡ has_prefix s (b ∷ [])
unfolding has_prefix trim_right
trim_right_front b cut [] h = refl
trim_right_front b cut (c ∷ s) h = elim (Bool-cases (is_empty (trim_right cut s) && cut c)) [
  | inl e ↦ absurd (cc (rw e at h))
  | inr e ↦ rw e refl
]

take-StartsOutside :
    (n : ℕ) (s : Text) → StartsOutside is_space s → StartsOutside is_space (take n s)
take-StartsOutside zero s h = tt
take-StartsOutside (suc n) [] h = tt
take-StartsOutside (suc n) (c ∷ s) h = h

cut_front :
    (b n : ℕ) (s : Text)
    → StartsOutside is_space s
    → is_empty (trim_space (take n s)) ≡ false
    → has_prefix (trim_space (take n s)) (b ∷ []) ≡ has_prefix s (b ∷ [])
unfolding trim_space trim_right
cut_front b n s h e =
    let left : trim_left is_space (take n s) ≡ take n s =
      trim_left_id is_space (take n s) (take-StartsOutside n s h) in
    let kept : is_empty (trim_right is_space (take n s)) ≡ false = rw left at e in
    let front = trim_right_front b is_space (take n s) kept in
    rw (left, front) (take_front b n s (not_empty (take n s) kept))
  where
    not_empty : (t : Text) → is_empty (trim_right is_space t) ≡ false → is_empty t ≡ false
    not_empty [] k = k
    not_empty (c ∷ t) k = refl

made_pattern-some :
    (line : Text) (is_negation is_dir : Bool) (p : IgnorePattern)
    → made_pattern line is_negation is_dir ≡ some p
    → (is_empty line ≡ false)
      × (record { pattern = line; is_negation = is_negation; is_dir = is_dir } ≡ p)
unfolding made_pattern
made_pattern-some [] is_negation is_dir p h = absurd (cc)
made_pattern-some (c ∷ line) is_negation is_dir p h = (refl, cc)

parse_directory-IsNormal :
    (line : Text) (is_negation : Bool) (p : IgnorePattern)
    → IsTrimmed line
    → (is_negation || not (has_prefix line (codes "#"))) ≡ true
    → (is_negation || not (has_prefix line (codes "!"))) ≡ true
    → parse_directory line is_negation ≡ some p
    → IsNormal p
unfolding parse_directory trim_suffix
parse_directory-IsNormal line is_negation p t hash bang h =
    elim (Bool-cases (has_suffix line (codes "/"))) [
      | inl e ↦ marked e (rw e at h)
      | inr e ↦ plain e (rw e at h)
    ]
  where
    marked :
        has_suffix line (codes "/") ≡ true
        → made_pattern (trim_space (take (length line - 1) line)) is_negation true ≡ some p
        → IsNormal p
    marked e k =
        let (some_left, same) = made_pattern-some _ is_negation true p k in
        subst IsNormal same (record {
          non_empty = some_left;
          trimmed = trim_space-IsTrimmed (take (length line - 1) line);
          unmarked = rw (cut_front b'#' (length line - 1) line t.0 some_left) hash;
          unnegated = rw (cut_front b'!' (length line - 1) line t.0 some_left) bang;
          unslashed = refl;
        })

    plain :
        has_suffix line (codes "/") ≡ false
        → made_pattern line is_negation false ≡ some p
        → IsNormal p
    plain e k =
        let (some_left, same) = made_pattern-some line is_negation false p k in
        subst IsNormal same (record {
          non_empty = some_left;
          trimmed = t;
          unmarked = hash;
          unnegated = bang;
          unslashed = rw e refl;
        })

negated-IsNormal :
    (line : Text) (p : IgnorePattern)
    → (if is_empty (trim_space line) then none else parse_directory (trim_space line) true) ≡ some p
    → IsNormal p
negated-IsNormal line p h = elim (Bool-cases (is_empty (trim_space line))) [
  | inl e ↦ absurd (cc (rw e at h))
  | inr e ↦
      parse_directory-IsNormal (trim_space line) true p (trim_space-IsTrimmed line) refl refl
        (rw e at h)
]

-- A line that becomes a pattern leaves one without white space around it and without the marks that
-- its flags stand for.
pub parse_pattern-IsNormal :
    (text : Text) (p : IgnorePattern) → parse_pattern text ≡ some p → IsNormal p
unfolding parse_pattern
parse_pattern-IsNormal text p h = elim (Bool-cases (is_empty line || has_prefix line (codes "#"))) [
  | inl e ↦ absurd (cc (rw e at h))
  | inr e ↦ elim (Bool-cases (has_prefix line (codes "!"))) [
    | inl k ↦ negated-IsNormal (trim_prefix line (codes "!")) p (rw (e, k) at h)
    | inr k ↦
        parse_directory-IsNormal line false p (trim_space-IsTrimmed text) (ground arith)
          (ground arith) (rw (e, k) at h)
  ]
]
  where
    line : Text
    line = trim_space text
