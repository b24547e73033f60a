-- ===== src/Text.antt =====
-- Go strings as lists of bytes, with the operations of package `strings` that the sources use.
pub mod Order
pub mod Affix
pub mod Prefix
pub mod Sets
pub mod Sorting
pub mod Members
pub mod Split
pub mod Maps
use Prim.Native.Char.{code}
use Prim.Native.String.{String}
use epinio.Base.{ℕ, Bool, true, false, ◌&&◌, List, [], ◌∷◌, ◌≡◌, refl, ◌↔◌, eqb, any, arith, ap₂}

abbrev pub Text : Type 0
Text = List ℕ

-- The bytes of an ASCII literal.
abbrev pub codes : String → Text
codes String.[] = []
codes (String.◌∷◌ c s) = code c ∷ codes s

infix 50 ◌==◌
unfoldable pub ◌==◌ : Text → Text → Bool
[] == [] = true
[] == (b ∷ t) = false
(a ∷ s) == [] = false
(a ∷ s) == (b ∷ t) = eqb a b && s == t

pub ==_iff : (s t : Text) → ((s == t) ≡ true) ↔ (s ≡ t)
unfolding ◌==◌
==_iff [] [] = (λ _. refl, λ _. refl)
==_iff [] (b ∷ t) = (λ h. cc, λ h. cc)
==_iff (a ∷ s) [] = (λ h. cc, λ h. cc)
==_iff (a ∷ s) (b ∷ t) = ground (arith, ==_iff s t)

pub ==_refl : (s : Text) → (s == s) ≡ true
==_refl s = (==_iff s s).1 refl

-- Membership in a slice or in the key set of a map.
abbrev pub elem : Text → List Text → Bool
elem x = any (λ y. y == x)
