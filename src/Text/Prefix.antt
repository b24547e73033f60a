-- ===== src/Text/Prefix.antt =====
-- `HasPrefix`, `TrimPrefix` and `Contains` of package `strings`, and `Split` at two stars.
use epinio.Base.{
  Bool, true, false, ◌&&◌, ◌||◌, List, [], ◌∷◌, ◌++◌, ◌≡◌, refl, eqb, length, drop, arith,
  if◌then◌else◌,
}
use epinio.Text.{Text}
use epinio.Text.Split.{push_head}

unfoldable pub has_prefix : Text → Text → Bool
has_prefix s [] = true
has_prefix [] (b ∷ p) = false
has_prefix (a ∷ s) (b ∷ p) = eqb a b && has_prefix s p

unfoldable pub trim_prefix : Text → Text → Text
unfolding has_prefix
trim_prefix s p = if has_prefix s p then drop (length p) s else s

unfoldable pub contains : Text → Text → Bool
unfolding has_prefix
contains [] p = has_prefix [] p
contains (c ∷ s) p = has_prefix (c ∷ s) p || contains s p

-- `strings.Split(s, "**")`.
unfoldable pub split_stars : Text → List Text
split_stars [] = [] ∷ []
split_stars (c ∷ []) = (c ∷ []) ∷ []
split_stars (c ∷ d ∷ s) =
    let behind = split_stars s in
    let next = split_stars (d ∷ s) in
    if eqb c b'*' && eqb d b'*' then [] ∷ behind else push_head c next

pub has_prefix-append : (p s : Text) → has_prefix (p ++ s) p ≡ true
unfolding has_prefix
has_prefix-append [] s = refl
has_prefix-append (a ∷ p) s = ground (arith, has_prefix-append p s)
