-- ===== src/Text/Sets.antt =====
-- The sorted keys of the set that a slice fills, and the members that they have
-- whatever the order in which a map hands them out.
use epinio.Base.{true, false, List, [], ◌∷◌, ◌≡◌, refl, ap₂, All, arith}
use epinio.Text.{Text, ==_iff, ==_refl, elem}
use epinio.Text.Order.{
  ◌<◌, lt_irrefl, lt_trans, IsAscending, sort_strings, sort_strings-IsAscending, elem-sort_strings,
  set_of, set_of-IsUnique, elem-set_of,
}

-- The sorted keys of the set that a slice fills.
pub unique_sorted : List Text → List Text
unique_sorted xs = sort_strings (set_of [] xs)

pub unique_sorted-IsAscending : (xs : List Text) → IsAscending (unique_sorted xs)
unfolding unique_sorted
unique_sorted-IsAscending xs = sort_strings-IsAscending (set_of [] xs) (set_of-IsUnique [] xs tt)

pub elem-unique_sorted : (a : Text) (xs : List Text) → elem a (unique_sorted xs) ≡ elem a xs
unfolding unique_sorted
elem-unique_sorted a xs = rw (elem-sort_strings, elem-set_of)

not-elem_of_All : (x : Text) (ys : List Text) → All (λ y. (x < y) ≡ true) ys → elem x ys ≡ false
not-elem_of_All x [] h = refl
not-elem_of_All x (y ∷ ys) h = ground (arith, not-elem_of_All x ys h.1, ==_iff y x, lt_irrefl x)

lt_of_elem :
    (x a : Text) (ys : List Text) → All (λ y. (x < y) ≡ true) ys → elem a ys ≡ true → (x < a) ≡ true
lt_of_elem x a [] h m = cc
lt_of_elem x a (y ∷ ys) h m = ground (arith, lt_of_elem x a ys h.1, ==_iff y a)

heads_equal :
    (x y : Text) (xs ys : List Text)
    → IsAscending (x ∷ xs)
    → IsAscending (y ∷ ys)
    → elem x (y ∷ ys) ≡ true
    → elem y (x ∷ xs) ≡ true
    → x ≡ y
heads_equal x y xs ys h k m n = ground (
  arith,
  ==_iff x y,
  ==_iff y x,
  lt_of_elem y x ys k.0,
  lt_of_elem x y xs h.0,
  lt_trans x y x,
  lt_irrefl x,
)

tails_agree :
    (x y a : Text) (xs ys : List Text)
    → x ≡ y
    → IsAscending (x ∷ xs)
    → IsAscending (y ∷ ys)
    → elem a (x ∷ xs) ≡ elem a (y ∷ ys)
    → elem a xs ≡ elem a ys
tails_agree x y a xs ys same h k e =
    ground (arith, ==_iff x a, ==_iff y a, not-elem_of_All x xs h.0, not-elem_of_All y ys k.0)

IsAscending-ext :
    (xs ys : List Text)
    → IsAscending xs
    → IsAscending ys
    → ((a : Text) → elem a xs ≡ elem a ys)
    → xs ≡ ys
IsAscending-ext [] [] h k e = refl
IsAscending-ext [] (y ∷ ys) h k e = ground (arith, e y, ==_refl y)
IsAscending-ext (x ∷ xs) [] h k e = ground (arith, e x, ==_refl x)
IsAscending-ext (x ∷ xs) (y ∷ ys) h k e =
    let same : x ≡ y =
      heads_equal x y xs ys h k (ground (arith, e x, ==_refl x)) (ground (arith, e y, ==_refl y)) in
    ap₂ (λ (z : Text) (zs : List Text). z ∷ zs) same
      (IsAscending-ext xs ys h.1 k.1 (λ a. tails_agree x y a xs ys same h k (e a)))

-- The sorted keys depend on the members of the slice only.
pub unique_sorted-ext :
    (xs ys : List Text) → ((a : Text) → elem a xs ≡ elem a ys) → unique_sorted xs ≡ unique_sorted ys
unique_sorted-ext xs ys h =
    IsAscending-ext (unique_sorted xs) (unique_sorted ys) (unique_sorted-IsAscending xs)
      (unique_sorted-IsAscending ys)
      (λ a. rw (elem-unique_sorted a xs, elem-unique_sorted a ys) (h a))
