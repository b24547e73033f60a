-- ===== src/Text/Members.antt =====
-- Predicates on the members of a slice, and on its sorted keys.
use epinio.Base.{true, List, [], ◌∷◌, ◌≡◌, arith, All, subst, Bool-cases, inl, inr}
use epinio.Text.{Text, ◌==◌, ==_iff, ==_refl, elem}
use epinio.Text.Sets.{unique_sorted, elem-unique_sorted}

module _ (P : Text → Type 0) where
  All_of_elem : (xs : List Text) → ((a : Text) → elem a xs ≡ true → P a) → All P xs
  All_of_elem [] h = tt
  All_of_elem (x ∷ xs) h =
      (h x (ground (arith, ==_refl x)), All_of_elem xs (λ a k. h a (ground arith)))

  elem_of_All : (xs : List Text) (a : Text) → All P xs → elem a xs ≡ true → P a
  elem_of_All [] a h k = absurd (cc)
  elem_of_All (x ∷ xs) a h k = elim (Bool-cases (x == a)) [
    | inl e ↦ subst P ((==_iff x a).0 e) h.0
    | inr e ↦ elem_of_All xs a h.1 (ground arith)
  ]

  pub All-unique_sorted : (xs : List Text) → All P xs → All P (unique_sorted xs)
  All-unique_sorted xs h =
      All_of_elem (unique_sorted xs) (λ a k. elem_of_All xs a h (rw elem-unique_sorted at k))
