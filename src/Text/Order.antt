-- ===== src/Text/Order.antt =====
-- The byte-wise order of Go strings, `sort.Strings`, and the sorted key lists of string sets.
use epinio.Base.{
  Bool, true, false, ◌&&◌, ◌||◌, List, [], ◌∷◌, ◌++◌, ◌≡◌, ◌≢◌, refl, ap, inl, inr, eqb, ltb,
  any-append, All, arith, if◌then◌else◌, Bool-cases,
}
use epinio.Text.{Text, ◌==◌, ==_iff, elem}

infix 50 ◌<◌
unfoldable pub ◌<◌ : Text → Text → Bool
[] < [] = false
[] < (b ∷ t) = true
(a ∷ s) < [] = false
(a ∷ s) < (b ∷ t) = ltb a b || (eqb a b && s < t)

pub lt_irrefl : (s : Text) → (s < s) ≡ false
unfolding ◌<◌
lt_irrefl [] = refl
lt_irrefl (a ∷ s) = ground (arith, lt_irrefl s)

pub lt_trans : (s t u : Text) → (s < t) ≡ true → (t < u) ≡ true → (s < u) ≡ true
unfolding ◌<◌
lt_trans [] [] u h k = cc
lt_trans [] (b ∷ t) [] h k = cc
lt_trans [] (b ∷ t) (c ∷ u) h k = refl
lt_trans (a ∷ s) [] u h k = cc
lt_trans (a ∷ s) (b ∷ t) [] h k = cc
lt_trans (a ∷ s) (b ∷ t) (c ∷ u) h k = ground (arith, lt_trans s t u)

lt_total : (s t : Text) → (s < t) ≡ false → s ≢ t → (t < s) ≡ true
unfolding ◌<◌
lt_total [] [] h ne = absurd (ne refl)
lt_total [] (b ∷ t) h ne = cc
lt_total (a ∷ s) [] h ne = refl
lt_total (a ∷ s) (b ∷ t) h ne = ground (arith, lt_total s t, ap (λ (r : Text). a ∷ r))

-- Strictly ascending, so without duplicates.
abbrev pub IsAscending : List Text → Type 0
IsAscending [] = Unit
IsAscending (x ∷ xs) = All (λ y. (x < y) ≡ true) xs × IsAscending xs

-- No entry occurs twice.
abbrev pub IsUnique : List Text → Type 0
IsUnique [] = Unit
IsUnique (x ∷ xs) = (elem x xs ≡ false) × IsUnique xs

unfoldable pub insert_sorted : Text → List Text → List Text
insert_sorted x [] = x ∷ []
insert_sorted x (y ∷ ys) = if y < x then y ∷ insert_sorted x ys else x ∷ y ∷ ys

-- `sort.Strings`: equal strings are the same string, so every sort gives this list.
unfoldable pub sort_strings : List Text → List Text
unfolding insert_sorted
sort_strings [] = []
sort_strings (x ∷ xs) = insert_sorted x (sort_strings xs)

pub elem-insert_sorted :
    (a x : Text) (xs : List Text) → elem a (insert_sorted x xs) ≡ (x == a || elem a xs)
unfolding insert_sorted
elem-insert_sorted a x [] = refl
elem-insert_sorted a x (y ∷ ys) = ground (arith, elem-insert_sorted a x ys)

pub elem-sort_strings : (a : Text) (xs : List Text) → elem a (sort_strings xs) ≡ elem a xs
unfolding sort_strings
elem-sort_strings a [] = refl
elem-sort_strings a (x ∷ xs) =
    ground (arith, elem-insert_sorted a x (sort_strings xs), elem-sort_strings a xs)

All_weaken :
    (x y : Text) (ys : List Text)
    → (x < y) ≡ true
    → All (λ z. (y < z) ≡ true) ys
    → All (λ z. (x < z) ≡ true) ys
All_weaken x y [] h k = tt
All_weaken x y (z ∷ zs) h k = (lt_trans x y z h k.0, All_weaken x y zs h k.1)

All-insert_sorted :
    (y x : Text) (xs : List Text)
    → (y < x) ≡ true
    → All (λ z. (y < z) ≡ true) xs
    → All (λ z. (y < z) ≡ true) (insert_sorted x xs)
unfolding insert_sorted
All-insert_sorted y x [] h k = (h, tt)
All-insert_sorted y x (z ∷ zs) h k = elim (Bool-cases (z < x)) [
  | inl e ↦ rw e (k.0, All-insert_sorted y x zs h k.1)
  | inr e ↦ rw e (h, k)
]

insert_sorted-IsAscending :
    (x : Text) (xs : List Text)
    → elem x xs ≡ false
    → IsAscending xs
    → IsAscending (insert_sorted x xs)
unfolding insert_sorted
insert_sorted-IsAscending x [] new h = (tt, tt)
insert_sorted-IsAscending x (y ∷ ys) new h = elim (Bool-cases (y < x)) [
  | inl e ↦ rw e (All-insert_sorted y x ys e h.0, insert_sorted-IsAscending x ys (ground arith) h.1)
  | inr e ↦
      let lt : (x < y) ≡ true = lt_total y x e (ground (arith, ==_iff y x)) in
      rw e ((lt, All_weaken x y ys lt h.0), h)
]

pub sort_strings-IsAscending : (xs : List Text) → IsUnique xs → IsAscending (sort_strings xs)
unfolding sort_strings
sort_strings-IsAscending [] u = tt
sort_strings-IsAscending (x ∷ xs) u =
    insert_sorted-IsAscending x (sort_strings xs) (rw elem-sort_strings u.0)
      (sort_strings-IsAscending xs u.1)

-- `m[v] = struct{}{}` on the keys of a set.
set_add : Text → List Text → List Text
set_add v m = if elem v m then m else m ++ v ∷ []

-- The keys of a set filled from a slice, in the order of their insertion.
unfoldable pub set_of : List Text → List Text → List Text
unfolding set_add
set_of m [] = m
set_of m (v ∷ vs) = set_of (set_add v m) vs

pub elem-append_one : (a v : Text) (m : List Text) → elem a (m ++ v ∷ []) ≡ (elem a m || v == a)
elem-append_one a v m = ground (arith, any-append (λ y. y == a) m (v ∷ []))

pub append_one-IsUnique :
    (v : Text) (m : List Text) → elem v m ≡ false → IsUnique m → IsUnique (m ++ v ∷ [])
append_one-IsUnique v [] new u = (refl, tt)
append_one-IsUnique v (y ∷ ys) new u = (
  ground (arith, elem-append_one y v ys, ==_iff y v, ==_iff v y),
  append_one-IsUnique v ys (ground arith) u.1,
)

set_add-IsUnique : (v : Text) (m : List Text) → IsUnique m → IsUnique (set_add v m)
unfolding set_add
set_add-IsUnique v m u = elim (Bool-cases (elem v m)) [
  | inl e ↦ rw e u
  | inr e ↦ rw e (append_one-IsUnique v m e u)
]

pub set_of-IsUnique : (m vs : List Text) → IsUnique m → IsUnique (set_of m vs)
unfolding set_of
set_of-IsUnique m [] u = u
set_of-IsUnique m (v ∷ vs) u = set_of-IsUnique (set_add v m) vs (set_add-IsUnique v m u)

elem-set_add : (a v : Text) (m : List Text) → elem a (set_add v m) ≡ (elem a m || v == a)
unfolding set_add
elem-set_add a v m = ground (arith, elem-append_one a v m, ==_iff v a)

pub elem-set_of : (a : Text) (m vs : List Text) → elem a (set_of m vs) ≡ (elem a m || elem a vs)
unfolding set_of
elem-set_of a m [] = ground arith
elem-set_of a m (v ∷ vs) = ground (arith, elem-set_of a (set_add v m) vs, elem-set_add a v m)
