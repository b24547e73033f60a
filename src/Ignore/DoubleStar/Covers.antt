-- ===== src/Ignore/DoubleStar/Covers.antt =====
-- helpers/ignore.go: matchSegmentsRecursive, and the relation that it is about.
use epinio.Base.{
  true, false, ◌&&◌, List, [], ◌∷◌, ◌++◌, ◌≡◌, refl, ◌↔◌, inl, inr, eqb, length, take, drop, any,
  arith, length-append, Bool-cases,
}
use epinio.Text.{Text}
use epinio.Text.Split.{split, split-ne-nil}
use epinio.Ignore.DoubleStar.{
  glob_matches, first_matches, window, starts_here, from_each, match_segments, no_segments,
}
use epinio.Ignore.DoubleStar.Windows.{
  Matched, take-drop, drop_front, length-Matched, window-Matched, Matched-window,
}

-- The segments of a pattern in their order, each on adjacent parts of the path, with any number of
-- parts before, between and behind them.
pub data Covers : List Text → List Text → Type 0 where
  done : {path : List Text} → Covers [] path
  skip : {ss path : List Text} (q : Text) → Covers ss path → Covers ss (q ∷ path)
  take_segment :
      {s : Text} {ss path : List Text} (mid rest : List Text)
      → Matched glob_matches (split s b'/') mid
      → mid ++ rest ≡ path
      → Covers ss rest
      → Covers (s ∷ ss) path

single_Matched :
    (ps : List Text) (x : Text)
    → eqb (length ps) 1 ≡ true
    → first_matches ps x ≡ true
    → Matched glob_matches ps (x ∷ [])
single_Matched [] x one h = absurd (ground arith)
single_Matched (p ∷ []) x one h = (h, tt)
single_Matched (p ∷ q ∷ ps) x one h = absurd (ground arith)

-- The first part is matched by the first part of the pattern.
Matched-first :
    (ps : List Text) (x : Text) (mid : List Text)
    → Matched glob_matches ps (x ∷ mid)
    → first_matches ps x ≡ true
Matched-first [] x mid m = absurd m
Matched-first (p ∷ ps) x mid m = m.0

some_Matched-ne-nil : (s : Text) → Matched glob_matches (split s b'/') [] → ⊥
some_Matched-ne-nil s m =
    split-ne-nil s b'/' (nil_of_length (split s b'/') (length-Matched _ (split s b'/') [] m))
  where
    nil_of_length : (ps : List Text) → length ps ≡ 0 → ps ≡ []
    nil_of_length [] e = refl
    nil_of_length (p ∷ ps) e = absurd (omega arith)

module _ (s : Text) (ss : List Text) where
  -- The last segment, of one part.
  any-Covers :
      (path : List Text)
      → no_segments ss ≡ true
      → eqb (length (split s b'/')) 1 ≡ true
      → any (first_matches (split s b'/')) path ≡ true
      → Covers (s ∷ ss) path
  any-Covers [] last one h = absurd (cc)
  any-Covers (q ∷ qs) last one h = elim (Bool-cases (first_matches (split s b'/') q)) [
    | inl e ↦
        take_segment (q ∷ []) qs (single_Matched (split s b'/') q one e) refl (covers_none ss last)
    | inr e ↦ skip q (any-Covers qs last one (ground arith))
  ]
    where
      covers_none : (ss : List Text) → no_segments ss ≡ true → Covers ss qs
      covers_none [] last = done
      covers_none (s ∷ ss) last = absurd (cc)

  module _ (ih : (path : List Text) → match_segments ss path ≡ true → Covers ss path) where
    starts_here-Covers :
        (path : List Text)
        → starts_here (split s b'/') (match_segments ss) path ≡ true
        → Covers (s ∷ ss) path
    unfolding starts_here
    starts_here-Covers path h =
        let parts = split s b'/' in
        let fits : window glob_matches parts path ≡ true = ground arith in
        let behind : match_segments ss (drop (length parts) path) ≡ true = ground arith in
        take_segment (take (length parts) path) (drop (length parts) path)
          (window-Matched glob_matches parts path fits) (take-drop glob_matches (length parts) path)
          (ih (drop (length parts) path) behind)

    from_each-Covers :
        (path : List Text)
        → from_each (split s b'/') (no_segments ss) (match_segments ss) path ≡ true
        → Covers (s ∷ ss) path
    unfolding from_each
    from_each-Covers path h = elim (Bool-cases (no_segments ss && eqb (length (split s b'/')) 1)) [
      | inl e ↦ single path e h
      | inr e ↦ several path e h
    ]
      where
        single :
            (path : List Text)
            → (no_segments ss && eqb (length (split s b'/')) 1) ≡ true
            → from_each (split s b'/') (no_segments ss) (match_segments ss) path ≡ true
            → Covers (s ∷ ss) path
        single [] e h = absurd (ground arith)
        single (q ∷ qs) e h = any-Covers (q ∷ qs) (ground arith) (ground arith) (ground arith)

        several :
            (path : List Text)
            → (no_segments ss && eqb (length (split s b'/')) 1) ≡ false
            → from_each (split s b'/') (no_segments ss) (match_segments ss) path ≡ true
            → Covers (s ∷ ss) path
        several [] e h = starts_here-Covers [] (ground arith)
        several (q ∷ qs) e h =
            elim (Bool-cases (starts_here (split s b'/') (match_segments ss) (q ∷ qs))) [
              | inl k ↦ starts_here-Covers (q ∷ qs) k
              | inr k ↦ skip q (several qs e (ground arith))
            ]

match_segments-Covers : (ss path : List Text) → match_segments ss path ≡ true → Covers ss path
unfolding match_segments
match_segments-Covers [] path h = done
match_segments-Covers (s ∷ ss) [] h = absurd (cc)
match_segments-Covers (s ∷ ss) (q ∷ qs) h =
    from_each-Covers s ss (match_segments-Covers ss) (q ∷ qs) h

skipped :
    (q : Text) (ss path : List Text)
    → match_segments ss path ≡ true
    → match_segments ss (q ∷ path) ≡ true
unfolding match_segments from_each
skipped q [] path h = refl
skipped q (s ∷ ss) [] h = absurd (cc)
skipped q (s ∷ ss) (r ∷ rs) h = ground arith

taken :
    (s : Text) (ss mid rest : List Text)
    → Matched glob_matches (split s b'/') mid
    → match_segments ss rest ≡ true
    → match_segments (s ∷ ss) (mid ++ rest) ≡ true
unfolding match_segments from_each starts_here
taken s ss [] rest m h = absurd (some_Matched-ne-nil s m)
taken s ss (x ∷ mid) rest m h =
    let parts = split s b'/' in
    let behind : match_segments ss (drop (length parts) (x ∷ (mid ++ rest))) ≡ true =
      rw (drop_front glob_matches parts (x ∷ mid) rest m) h in
    ground (
      arith,
      behind,
      Matched-first parts x mid m,
      length-Matched glob_matches parts (x ∷ mid) m,
      length-append mid rest,
      Matched-window glob_matches parts (x ∷ mid) rest m,
    )

Covers-match_segments : (ss path : List Text) → Covers ss path → match_segments ss path ≡ true
Covers-match_segments ss path done = unfold match_segments in refl
Covers-match_segments ss path (skip q c) = skipped q ss _ (Covers-match_segments ss _ c)
Covers-match_segments ss path (take_segment mid rest m e c) =
    rw (← e) (taken _ _ mid rest m (Covers-match_segments _ rest c))

-- The search through the start positions of each segment answers true exactly on the paths that the
-- segments cover: no choice of a position that it makes costs it a match.
pub match_segments_iff : (ss path : List Text) → (match_segments ss path ≡ true) ↔ Covers ss path
match_segments_iff ss path = (match_segments-Covers ss path, Covers-match_segments ss path)
