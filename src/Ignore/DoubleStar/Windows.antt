-- ===== src/Ignore/DoubleStar/Windows.antt =====
-- helpers/ignore.go: what the loops find that try a pattern of several parts at each position.
use epinio.Base.{
  ℕ, zero, suc, Bool, true, List, [], ◌∷◌, ◌++◌, ◌≡◌, refl, ap, ◌↔◌, inl, inr, length, take, drop,
  arith, length-append, Bool-cases,
}
use epinio.Text.{Text}
use epinio.Ignore.DoubleStar.{window, at_some}

-- Each part of a pattern matches the part of a path at its place, and no part is left over.
abbrev pub Matched : (Text → Text → Bool) → List Text → List Text → Type 0
Matched test [] [] = Unit
Matched test [] (q ∷ qs) = ⊥
Matched test (p ∷ ps) [] = ⊥
Matched test (p ∷ ps) (q ∷ qs) = (test p q ≡ true) × Matched test ps qs

module _ (test : Text → Text → Bool) where
  pub length-Matched : (ps qs : List Text) → Matched test ps qs → length ps ≡ length qs
  length-Matched [] [] m = refl
  length-Matched [] (q ∷ qs) m = absurd m
  length-Matched (p ∷ ps) [] m = absurd m
  length-Matched (p ∷ ps) (q ∷ qs) m = ap suc (length-Matched ps qs m.1)

  pub take-drop : (n : ℕ) (qs : List Text) → take n qs ++ drop n qs ≡ qs
  take-drop zero qs = refl
  take-drop (suc n) [] = refl
  take-drop (suc n) (q ∷ qs) = ap (λ r. q ∷ r) (take-drop n qs)

  pub drop_front :
      (ps mid rest : List Text) → Matched test ps mid → drop (length ps) (mid ++ rest) ≡ rest
  drop_front [] [] rest m = refl
  drop_front [] (q ∷ mid) rest m = absurd m
  drop_front (p ∷ ps) [] rest m = absurd m
  drop_front (p ∷ ps) (q ∷ mid) rest m = drop_front ps mid rest m.1

  pub window-Matched :
      (ps qs : List Text) → window test ps qs ≡ true → Matched test ps (take (length ps) qs)
  unfolding window
  window-Matched [] qs h = tt
  window-Matched (p ∷ ps) [] h = absurd (cc)
  window-Matched (p ∷ ps) (q ∷ qs) h =
      let both : (test p q ≡ true) × (window test ps qs ≡ true) = ground arith in
      (both.0, window-Matched ps qs both.1)

  pub Matched-window :
      (ps mid rest : List Text) → Matched test ps mid → window test ps (mid ++ rest) ≡ true
  unfolding window
  Matched-window [] mid rest m = refl
  Matched-window (p ∷ ps) [] rest m = absurd m
  Matched-window (p ∷ ps) (q ∷ mid) rest m = ground (arith, Matched-window ps mid rest m.1)

  -- A part of the path, between two others, that the pattern matches.
  abbrev pub Occurs : List Text → List Text → Type 0
  Occurs ps path =
      (before : List Text) × (mid : List Text) × (rest : List Text) × (before ++ (mid ++ rest)
        ≡ path)
      × Matched test ps mid

  Occurs-here : (ps qs : List Text) → window test ps qs ≡ true → Occurs ps qs
  Occurs-here ps qs h = (
    [],
    take (length ps) qs,
    drop (length ps) qs,
    take-drop (length ps) qs,
    window-Matched ps qs h,
  )

  at_some-Occurs : (ps qs : List Text) → at_some test ps qs ≡ true → Occurs ps qs
  unfolding at_some window
  at_some-Occurs [] [] h = ([], [], [], refl, tt)
  at_some-Occurs (p ∷ ps) [] h = absurd (ground arith)
  at_some-Occurs ps (q ∷ qs) h = elim (Bool-cases (window test ps (q ∷ qs))) [
    | inl e ↦ Occurs-here ps (q ∷ qs) e
    | inr e ↦
        let later : at_some test ps qs ≡ true = ground arith in
        let (before, mid, rest, path, m) = at_some-Occurs ps qs later in
        (q ∷ before, mid, rest, ap (λ r. q ∷ r) path, m)
  ]

  Occurs-at_some :
      (ps before mid rest : List Text)
      → Matched test ps mid
      → at_some test ps (before ++ (mid ++ rest)) ≡ true
  unfolding at_some window
  Occurs-at_some [] [] [] [] m = refl
  Occurs-at_some (p ∷ ps) [] [] [] m = absurd m
  Occurs-at_some ps [] [] (r ∷ rest) m =
      ground (arith, length-Matched ps [] m, Matched-window ps [] (r ∷ rest) m)
  Occurs-at_some ps [] (q ∷ mid) rest m = ground (
    arith,
    length-Matched ps (q ∷ mid) m,
    length-append mid rest,
    Matched-window ps (q ∷ mid) rest m,
  )
  Occurs-at_some ps (q ∷ before) mid rest m = ground (
    arith,
    length-Matched ps mid m,
    length-append before (mid ++ rest),
    length-append mid rest,
    Occurs-at_some ps before mid rest m,
  )

  -- A pattern of several parts is found exactly in the paths in which, somewhere, as many parts in
  -- a row are matched by its parts, one by one.
  pub at_some_iff : (ps qs : List Text) → (at_some test ps qs ≡ true) ↔ Occurs ps qs
  at_some_iff ps qs = (
    at_some-Occurs ps qs,
    λ (before, mid, rest, path, m). rw (← path) (Occurs-at_some ps before mid rest m),
  )
