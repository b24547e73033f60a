-- ===== src/Text/Affix.antt =====
-- Suffixes and trimming: `TrimSuffix`, `TrimLeft`, `TrimRight` and `TrimSpace` of package
-- `strings`.
use epinio.Base.{
  ap, length-append, All, ◌≢◌, ℕ, ◌-◌, Bool, true, false, ◌&&◌, ◌||◌, [], ◌∷◌, ◌++◌, ◌≡◌, refl, inl,
  inr, eqb, leb, length, take, arith, if◌then◌else◌, Bool-cases,
}
use epinio.Text.{Text, ◌==◌, ==_iff}

unfoldable pub has_suffix : Text → Text → Bool
has_suffix [] p = [] == p
has_suffix (a ∷ s) p = (a ∷ s) == p || has_suffix s p

unfoldable pub trim_suffix : Text → Text → Text
trim_suffix s p = if has_suffix s p then take (length s - length p) s else s

-- `TrimLeft` and `TrimRight`, with the cut set as a test.
unfoldable pub trim_left : (ℕ → Bool) → Text → Text
trim_left cut [] = []
trim_left cut (c ∷ s) = if cut c then trim_left cut s else c ∷ s

abbrev pub is_empty : Text → Bool
is_empty [] = true
is_empty (c ∷ s) = false

unfoldable pub trim_right : (ℕ → Bool) → Text → Text
trim_right cut [] = []
trim_right cut (c ∷ s) = if is_empty (trim_right cut s) && cut c then [] else c ∷ trim_right cut s

-- The white space of `TrimSpace` that is ASCII. The characters beyond ASCII that it trims as well, such
-- as U+0085 and U+00A0, are not: a text that has one of them at an end is outside the model.
unfoldable pub is_space : ℕ → Bool
is_space c = (leb 9 c && leb c 13) || eqb c b' '

unfoldable pub trim_space : Text → Text
trim_space s = trim_right is_space (trim_left is_space s)

-- The first byte, and the last one, is not one that `cut` removes.
abbrev pub StartsOutside : (ℕ → Bool) → Text → Type 0
StartsOutside cut [] = Unit
StartsOutside cut (c ∷ s) = cut c ≡ false

abbrev pub EndsOutside : (ℕ → Bool) → Text → Type 0
EndsOutside cut [] = Unit
EndsOutside cut (c ∷ []) = cut c ≡ false
EndsOutside cut (c ∷ d ∷ s) = EndsOutside cut (d ∷ s)

pub trim_left-StartsOutside : (cut : ℕ → Bool) (s : Text) → StartsOutside cut (trim_left cut s)
unfolding trim_left
trim_left-StartsOutside cut [] = tt
trim_left-StartsOutside cut (c ∷ s) = elim (Bool-cases (cut c)) [
  | inl e ↦ rw e (trim_left-StartsOutside cut s)
  | inr e ↦ rw e e
]

pub trim_left_id : (cut : ℕ → Bool) (s : Text) → StartsOutside cut s → trim_left cut s ≡ s
unfolding trim_left
trim_left_id cut [] h = refl
trim_left_id cut (c ∷ s) h = rw h

trim_right_id : (cut : ℕ → Bool) (s : Text) → EndsOutside cut s → trim_right cut s ≡ s
unfolding trim_right
trim_right_id cut [] h = refl
trim_right_id cut (c ∷ []) h = rw h
trim_right_id cut (c ∷ d ∷ s) h = rw (trim_right_id cut (d ∷ s) h)

-- `c` in front of a text that ends outside the cut set, and is not empty or does itself.
EndsOutside-cons :
    (cut : ℕ → Bool) (c : ℕ) (s : Text)
    → EndsOutside cut s
    → (is_empty s && cut c) ≡ false
    → EndsOutside cut (c ∷ s)
EndsOutside-cons cut c [] h e = e
EndsOutside-cons cut c (d ∷ s) h e = h

pub trim_right-EndsOutside : (cut : ℕ → Bool) (s : Text) → EndsOutside cut (trim_right cut s)
unfolding trim_right
trim_right-EndsOutside cut [] = tt
trim_right-EndsOutside cut (c ∷ s) = elim (Bool-cases (is_empty (trim_right cut s) && cut c)) [
  | inl e ↦ rw e tt
  | inr e ↦ rw e (EndsOutside-cons cut c (trim_right cut s) (trim_right-EndsOutside cut s) e)
]

pub trim_right-StartsOutside :
    (cut : ℕ → Bool) (s : Text) → StartsOutside cut s → StartsOutside cut (trim_right cut s)
unfolding trim_right
trim_right-StartsOutside cut [] h = tt
trim_right-StartsOutside cut (c ∷ s) h = elim (Bool-cases (is_empty (trim_right cut s) && cut c)) [
  | inl e ↦ rw e tt
  | inr e ↦ rw e h
]

pub EndsOutside-append :
    (cut : ℕ → Bool) (p : Text) (c : ℕ) (s : Text)
    → EndsOutside cut (c ∷ s)
    → EndsOutside cut (p ++ c ∷ s)
EndsOutside-append cut [] c s h = h
EndsOutside-append cut (a ∷ []) c s h = h
EndsOutside-append cut (a ∷ b ∷ p) c s h = EndsOutside-append cut (b ∷ p) c s h

-- A text without white space at its two ends.
abbrev pub IsTrimmed : Text → Type 0
IsTrimmed s = StartsOutside is_space s × EndsOutside is_space s

pub trim_space_id : (s : Text) → IsTrimmed s → trim_space s ≡ s
unfolding trim_space
trim_space_id s h = rw (trim_left_id is_space s h.0) (trim_right_id is_space s h.1)

pub has_suffix-append : (s : Text) (c : ℕ) → has_suffix (s ++ c ∷ []) (c ∷ []) ≡ true
unfolding has_suffix
has_suffix-append [] c = ground (arith, ==_iff (c ∷ []) (c ∷ []))
has_suffix-append (d ∷ s) c = ground (arith, has_suffix-append s c)

take_front : (s t : Text) → take (length s) (s ++ t) ≡ s
take_front [] t = refl
take_front (d ∷ s) t = ap (λ r. d ∷ r) (take_front s t)

-- Trimming a byte that was just appended gives the text back.
pub trim_suffix-append : (s : Text) (c : ℕ) → trim_suffix (s ++ c ∷ []) (c ∷ []) ≡ s
unfolding trim_suffix
trim_suffix-append s c =
    let shorter : length (s ++ c ∷ []) - 1 ≡ length s = omega (arith, length-append s (c ∷ [])) in
    rw (has_suffix-append s c, shorter) (take_front s (c ∷ []))

has_suffix_lacking : (s : Text) (c : ℕ) → All (λ d. d ≢ c) s → has_suffix s (c ∷ []) ≡ false
unfolding has_suffix
has_suffix_lacking [] c h = ground (arith, ==_iff [] (c ∷ []))
has_suffix_lacking (d ∷ s) c h = elim (Bool-cases ((d ∷ s) == c ∷ [])) [
  | inl e ↦ let same : d ∷ s ≡ c ∷ [] = (==_iff (d ∷ s) (c ∷ [])).0 e in absurd (h.0 (cc))
  | inr e ↦ rw e (has_suffix_lacking s c h.1)
]

-- A text without the byte has no such suffix to trim.
pub trim_suffix_lacking : (s : Text) (c : ℕ) → All (λ d. d ≢ c) s → trim_suffix s (c ∷ []) ≡ s
unfolding trim_suffix
trim_suffix_lacking s c h = rw (has_suffix_lacking s c h) refl
