-- ===== src/Text/Split.antt =====
-- `strings.Split` and `strings.SplitN(s, sep, 2)` at a separator of one byte, and `strings.Join`.
use epinio.Base.{
  true, all, not, eqb, ℕ, List, [], ◌∷◌, ◌++◌, Option, none, some, ◌≡◌, ◌≢◌, refl, ap, inl, inr,
  eqb, All, arith, if◌then◌else◌, Bool-cases, Option-cases,
}
use epinio.Text.{Text}

-- The byte in front of the first part.
abbrev pub push_head : ℕ → List Text → List Text
push_head c [] = (c ∷ []) ∷ []
push_head c (p ∷ ps) = (c ∷ p) ∷ ps

unfoldable pub split : Text → ℕ → List Text
split [] sep = [] ∷ []
split (c ∷ s) sep = if eqb c sep then [] ∷ split s sep else push_head c (split s sep)

unfoldable pub join : List Text → Text → Text
join [] sep = []
join (p ∷ []) sep = p
join (p ∷ q ∷ ps) sep = p ++ (sep ++ join (q ∷ ps) sep)

-- What stands before the first separator and behind it, if there is one.
unfoldable pub cut : Text → ℕ → Option (Text × Text)
cut [] sep = none
cut (c ∷ s) sep =
    if eqb c sep
    then some ([], s)
    else elim (cut s sep) [ none ↦ none | some (before, after) ↦ some (c ∷ before, after) ]

abbrev pub Lacks : ℕ → Text → Type 0
Lacks b = All (λ c. c ≢ b)

pub split-ne-nil : (s : Text) (sep : ℕ) → split s sep ≢ []
unfolding split
split-ne-nil [] sep h = cc
split-ne-nil (c ∷ s) sep h = elim (Bool-cases (eqb c sep)) [
  | inl e ↦ cc (rw e at h)
  | inr e ↦ push_head-ne-nil c (split s sep) (rw e at h)
]
  where
    push_head-ne-nil : (c : ℕ) (ps : List Text) → push_head c ps ≢ []
    push_head-ne-nil c [] k = cc
    push_head-ne-nil c (p ∷ ps) k = cc

join-push_head :
    (c : ℕ) (ps : List Text) (sep : Text) → ps ≢ [] → join (push_head c ps) sep ≡ c ∷ join ps sep
unfolding join
join-push_head c [] sep h = absurd (h refl)
join-push_head c (p ∷ []) sep h = refl
join-push_head c (p ∷ q ∷ ps) sep h = refl

join_cons_nil :
    (ps : List Text) (sep : ℕ) → ps ≢ [] → join ([] ∷ ps) (sep ∷ []) ≡ sep ∷ join ps (sep ∷ [])
unfolding join
join_cons_nil [] sep h = absurd (h refl)
join_cons_nil (p ∷ ps) sep h = refl

-- Joining what was split gives the text back.
pub join-split : (s : Text) (sep : ℕ) → join (split s sep) (sep ∷ []) ≡ s
unfolding split
join-split [] sep = unfold join in refl
join-split (c ∷ s) sep = ground (
  arith,
  join-split s sep,
  join_cons_nil (split s sep) sep,
  join-push_head c (split s sep) (sep ∷ []),
  split-ne-nil s sep,
)

-- A text without the byte, by the test of each byte.
pub lacking : (b : ℕ) (s : Text) → all (λ c. not (eqb c b)) s ≡ true → Lacks b s
lacking b [] h = tt
lacking b (c ∷ s) h = (λ e. ground arith, lacking b s (ground arith))

pub split_at_sep : (p s : Text) (sep : ℕ) → Lacks sep p → split (p ++ sep ∷ s) sep ≡ p ∷ split s sep
unfolding split
split_at_sep [] s sep h = ground arith
split_at_sep (c ∷ p) s sep h = ground (arith, split_at_sep p s sep h.1)

pub split_lacking : (p : Text) (sep : ℕ) → Lacks sep p → split p sep ≡ p ∷ []
unfolding split
split_lacking [] sep h = refl
split_lacking (c ∷ p) sep h = ground (arith, split_lacking p sep h.1)

-- Splitting what was joined gives the parts back, if there is one and none holds the separator.
pub split-join :
    (ps : List Text) (sep : ℕ) → ps ≢ [] → All (Lacks sep) ps → split (join ps (sep ∷ [])) sep ≡ ps
unfolding join
split-join [] sep h a = absurd (h refl)
split-join (p ∷ []) sep h a = split_lacking p sep a.0
split-join (p ∷ q ∷ ps) sep h a =
    rw (split_at_sep p (join (q ∷ ps) (sep ∷ [])) sep a.0)
      (ap (λ (t : List Text). p ∷ t) (split-join (q ∷ ps) sep (λ e. cc) a.1))

-- The parts that are cut make up the text, around the separator.
pub cut_parts : (s d p : Text) (sep : ℕ) → cut s sep ≡ some (d, p) → d ++ sep ∷ p ≡ s
unfolding cut
cut_parts [] d p sep e = absurd (cc)
cut_parts (c ∷ s) d p sep e = elim (Bool-cases (eqb c sep)) [
  | inl is ↦ ground arith
  | inr not_sep ↦ elim (Option-cases (cut s sep)) [
    | inl gone ↦ absurd (ground arith)
    | inr ((d1, p1), found) ↦ ground (arith, cut_parts s d1 p1 sep found)
  ]
]

-- A text that is not cut has no separator.
pub uncut_lacking : (s : Text) (sep : ℕ) → cut s sep ≡ none → Lacks sep s
unfolding cut
uncut_lacking [] sep e = tt
uncut_lacking (c ∷ s) sep e = (λ same. ground arith, uncut_lacking s sep (ground arith))
