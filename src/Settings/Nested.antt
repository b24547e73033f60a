-- ===== src/Settings/Nested.antt =====
-- When a key lies below a declaration of type "map".
use epinio.Base.{
  ℕ, zero, suc, ◌≤◌, Bool, true, List, [], ◌∷◌, ◌++◌, ◌≡◌, ◌≢◌, ◌↔◌, refl, sym, ap, ◌∙◌, inl, inr,
  eqb, length, arith, append-nil, append_assoc, Bool-cases, length-append,
}
use epinio.Text.{Text, codes}
use epinio.Text.Split.{split, join, push_head, split-ne-nil, join-split}
use epinio.Text.Maps.{Map, lookup}
use epinio.Settings.{ChartSetting, is_map, without_last, in_map, nested_map}

without_last_shown :
    (p : Text) (ps : List Text) → (l : Text) × (without_last (p ∷ ps) ++ l ∷ [] ≡ p ∷ ps)
without_last_shown p [] = (p, refl)
without_last_shown p (q ∷ ps) = let (l, e) = without_last_shown q ps in (l, ap (λ r. p ∷ r) e)

without_last-append :
    (fs : List Text) (b : Text) (gs : List Text)
    → without_last (fs ++ b ∷ gs) ≡ fs ++ without_last (b ∷ gs)
without_last-append [] b gs = refl
without_last-append (a ∷ []) b gs = refl
without_last-append (a ∷ c ∷ fs) b gs = ap (λ r. a ∷ r) (without_last-append (c ∷ fs) b gs)

length-without_last : (b : Text) (gs : List Text) → length (without_last (b ∷ gs)) ≡ length gs
length-without_last b [] = refl
length-without_last b (c ∷ gs) = ap suc (length-without_last c gs)

module _ (decl : Map ChartSetting) where
  abbrev map_at : List Text → Bool
  map_at pieces = is_map (lookup (join pieces (codes ".")) decl)

  -- The first pieces of some number of them name a map.
  abbrev HasMap : List Text → Type 0
  HasMap pieces =
      (fs : List Text) × (gs : List Text) × (fs ≢ []) × (fs ++ gs ≡ pieces) × (map_at fs ≡ true)

  in_map-HasMap : (fuel : ℕ) (pieces : List Text) → in_map fuel decl pieces ≡ true → HasMap pieces
  unfolding in_map
  in_map-HasMap zero pieces h = absurd (cc)
  in_map-HasMap (suc fuel) [] h = absurd (cc)
  in_map-HasMap (suc fuel) (p ∷ ps) h = elim (Bool-cases (map_at (p ∷ ps))) [
    | inl e ↦ (p ∷ ps, [], λ k. cc, append-nil (p ∷ ps), e)
    | inr e ↦
        let (fs, gs, some_left, same, found) =
          in_map-HasMap fuel (without_last (p ∷ ps)) (ground arith) in
        let (l, whole) = without_last_shown p ps in
        (
          fs,
          gs ++ l ∷ [],
          some_left,
          (sym (append_assoc fs gs (l ∷ [])) ∙ ap (λ r. r ++ l ∷ []) same) ∙ whole,
          found,
        )
  ]

  -- With fs many rounds fs pieces, the loop does not miss a map.
  HasMap-in_map :
      (fuel : ℕ) (a : Text) (fs gs : List Text)
      → length ((a ∷ fs) ++ gs) ≤ fuel
      → map_at (a ∷ fs) ≡ true
      → in_map fuel decl ((a ∷ fs) ++ gs) ≡ true
  unfolding in_map
  HasMap-in_map zero a fs gs h e = absurd (omega arith)
  HasMap-in_map (suc fuel) a fs [] h e = rw (append-nil, e) refl
  HasMap-in_map (suc fuel) a fs (b ∷ gs) h e =
      let fewer : length ((a ∷ fs) ++ without_last (b ∷ gs)) ≤ fuel = omega (
        arith,
        length-append fs (b ∷ gs),
        length-append fs (without_last (b ∷ gs)),
        length-without_last b gs,
      ) in
      let shorter : in_map fuel decl (without_last ((a ∷ fs) ++ b ∷ gs)) ≡ true =
        rw (without_last-append (a ∷ fs) b gs)
          (HasMap-in_map fuel a fs (without_last (b ∷ gs)) fewer e) in
      ground (arith, shorter)

join-append :
    (a : Text) (fs : List Text) (b : Text) (gs : List Text)
    → join ((a ∷ fs) ++ b ∷ gs) (codes ".")
      ≡ join (a ∷ fs) (codes ".") ++ b'.' ∷ join (b ∷ gs) (codes ".")
unfolding join
join-append a [] b gs = refl
join-append a (c ∷ fs) b gs =
    rw (join-append c fs b gs)
      (sym (append_assoc a (b'.' ∷ join (c ∷ fs) (codes ".")) (b'.' ∷ join (b ∷ gs) (codes "."))))

push_head-append :
    (c : ℕ) (ps qs : List Text) → ps ≢ [] → push_head c ps ++ qs ≡ push_head c (ps ++ qs)
push_head-append c [] qs h = absurd (h refl)
push_head-append c (p ∷ ps) qs h = refl

split-append : (p s : Text) (sep : ℕ) → split (p ++ sep ∷ s) sep ≡ split p sep ++ split s sep
unfolding split
split-append [] s sep = ground arith
split-append (c ∷ p) s sep = elim (Bool-cases (eqb c sep)) [
  | inl e ↦ rw (e, split-append p s sep) refl
  | inr e ↦
      rw (e, split-append p s sep)
        (sym (push_head-append c (split p sep) (split s sep) (split-ne-nil p sep)))
]

-- Some text in front of a dot of the key is declared to be a map.
abbrev pub IsNested : Map ChartSetting → Text → Type 0
IsNested decl key =
    (prefix : Text) × (rest : Text) × (prefix ++ b'.' ∷ rest ≡ key)
    × (is_map (lookup prefix decl) ≡ true)

last_piece :
    (pieces : List Text) → pieces ≢ [] → (l : Text) × (without_last pieces ++ l ∷ [] ≡ pieces)
last_piece [] h = absurd (h refl)
last_piece (p ∷ ps) h = without_last_shown p ps

-- Pieces that make up the key, put together in two parts.
joined_parts :
    (key f : Text) (fs : List Text) (c : Text) (cs : List Text)
    → (f ∷ fs) ++ c ∷ cs ≡ split key b'.'
    → join (f ∷ fs) (codes ".") ++ b'.' ∷ join (c ∷ cs) (codes ".") ≡ key
joined_parts key f fs c cs e =
    sym (join-append f fs c cs) ∙ (ap (λ r. join r (codes ".")) e ∙ join-split key b'.')

nested_map-IsNested :
    (decl : Map ChartSetting) (key : Text) → nested_map decl key ≡ true → IsNested decl key
nested_map-IsNested decl key h =
    let pieces = without_last (split key b'.') in
    let (fs, gs, some_left, same, found) = in_map-HasMap decl (length pieces) pieces h in
    let (l, whole) = last_piece (split key b'.') (split-ne-nil key b'.') in
    go fs gs l some_left (ap (λ r. r ++ l ∷ []) same ∙ whole) found
  where
    go :
        (fs gs : List Text) (l : Text)
        → fs ≢ []
        → (fs ++ gs) ++ l ∷ [] ≡ split key b'.'
        → map_at decl fs ≡ true
        → IsNested decl key
    go [] gs l h e found = absurd (h refl)
    go (f ∷ fs) [] l h e found =
        let same : (f ∷ fs) ++ l ∷ [] ≡ split key b'.' =
          ap (λ r. r ++ l ∷ []) (sym (append-nil (f ∷ fs))) ∙ e in
        (
          join (f ∷ fs) (codes "."),
          join (l ∷ []) (codes "."),
          joined_parts key f fs l [] same,
          found,
        )
    go (f ∷ fs) (g ∷ gs) l h e found =
        let same : (f ∷ fs) ++ (g ∷ gs ++ l ∷ []) ≡ split key b'.' =
          sym (append_assoc (f ∷ fs) (g ∷ gs) (l ∷ [])) ∙ e in
        (
          join (f ∷ fs) (codes "."),
          join (g ∷ gs ++ l ∷ []) (codes "."),
          joined_parts key f fs g (gs ++ l ∷ []) same,
          found,
        )

IsNested-nested_map :
    (decl : Map ChartSetting) (key : Text) → IsNested decl key → nested_map decl key ≡ true
IsNested-nested_map decl key (prefix, rest, e, found) =
    rw (← e, split-append prefix rest b'.')
      (go (split prefix b'.') (split rest b'.') (split-ne-nil prefix b'.') (split-ne-nil rest b'.')
        (rw (join-split prefix b'.') found))
  where
    go :
        (fs gs : List Text)
        → fs ≢ []
        → gs ≢ []
        → map_at decl fs ≡ true
        → in_map (length (without_last (fs ++ gs))) decl (without_last (fs ++ gs)) ≡ true
    go [] gs h k found = absurd (h refl)
    go (f ∷ fs) [] h k found = absurd (k refl)
    go (f ∷ fs) (g ∷ gs) h k found = rw (without_last-append (f ∷ fs) g gs) (
        HasMap-in_map decl (length ((f ∷ fs) ++ without_last (g ∷ gs))) f fs (without_last (g ∷ gs))
          (omega arith) found)

-- The loop over the pieces of a key ends before its fuel does, and finds a map exactly if some text
-- in front of a dot of the key is declared to be one.
pub nested_map_iff :
    (decl : Map ChartSetting) (key : Text) → (nested_map decl key ≡ true) ↔ IsNested decl key
nested_map_iff decl key = (nested_map-IsNested decl key, IsNested-nested_map decl key)
