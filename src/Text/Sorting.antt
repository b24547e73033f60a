-- ===== src/Text/Sorting.antt =====
-- `sort.Strings`, and the keys of a set that a slice fills, in numbers.
use epinio.Base.{
  ◌≤◌, suc, true, false, List, [], ◌∷◌, ◌++◌, ◌≡◌, refl, ap, inl, inr, length, arith, Bool-cases,
  append-nil, append_assoc, length-append, any-append, ◌∙◌, sym,
}
use epinio.Text.{Text, ◌==◌, ==_iff, ==_refl, elem}
use epinio.Text.Order.{
  ◌<◌, IsUnique, sort_strings, insert_sorted, elem-insert_sorted, elem-sort_strings, set_of,
  lt_trans, lt_irrefl,
}

-- Each string is at most the one behind it.
abbrev pub IsSorted : List Text → Type 0
IsSorted [] = Unit
IsSorted (x ∷ []) = Unit
IsSorted (x ∷ y ∷ ys) = ((y < x) ≡ false) × IsSorted (y ∷ ys)

IsSorted-tail : (x : Text) (xs : List Text) → IsSorted (x ∷ xs) → IsSorted xs
IsSorted-tail x [] h = tt
IsSorted-tail x (y ∷ ys) h = h.1

-- In front of what an insertion gives stands a string that is below both.
IsSorted-insert_behind :
    (y x : Text) (ys : List Text)
    → (y < x) ≡ true
    → IsSorted (y ∷ ys)
    → IsSorted (insert_sorted x ys)
    → IsSorted (y ∷ insert_sorted x ys)
unfolding insert_sorted
IsSorted-insert_behind y x [] lt h k = (below y x lt, tt)
  where
    below : (y x : Text) → (y < x) ≡ true → (x < y) ≡ false
    below y x lt = ground (arith, lt_trans y x y, lt_irrefl y)
IsSorted-insert_behind y x (z ∷ zs) lt h k = elim (Bool-cases (z < x)) [
  | inl e ↦ rw e (h.0, rw e at k)
  | inr e ↦ rw e (ground (arith, lt_trans y x y, lt_irrefl y), rw e at k)
]

insert_sorted-IsSorted : (x : Text) (xs : List Text) → IsSorted xs → IsSorted (insert_sorted x xs)
unfolding insert_sorted
insert_sorted-IsSorted x [] h = tt
insert_sorted-IsSorted x (y ∷ ys) h = elim (Bool-cases (y < x)) [
  | inl e ↦
      rw e (IsSorted-insert_behind y x ys e h (insert_sorted-IsSorted x ys (IsSorted-tail y ys h)))
  | inr e ↦ rw e (e, h)
]

sort_strings-IsSorted : (xs : List Text) → IsSorted (sort_strings xs)
unfolding sort_strings
sort_strings-IsSorted [] = tt
sort_strings-IsSorted (x ∷ xs) =
    insert_sorted-IsSorted x (sort_strings xs) (sort_strings-IsSorted xs)

insert_sorted_front : (x : Text) (xs : List Text) → IsSorted (x ∷ xs) → insert_sorted x xs ≡ x ∷ xs
unfolding insert_sorted
insert_sorted_front x [] h = refl
insert_sorted_front x (y ∷ ys) h = rw h.0

sort_strings_id : (xs : List Text) → IsSorted xs → sort_strings xs ≡ xs
unfolding sort_strings
sort_strings_id [] h = refl
sort_strings_id (x ∷ xs) h =
    ap (insert_sorted x) (sort_strings_id xs (IsSorted-tail x xs h)) ∙ insert_sorted_front x xs h

pub sort_strings_idem : (xs : List Text) → sort_strings (sort_strings xs) ≡ sort_strings xs
sort_strings_idem xs = sort_strings_id (sort_strings xs) (sort_strings-IsSorted xs)

length-insert_sorted : (x : Text) (xs : List Text) → length (insert_sorted x xs) ≡ suc (length xs)
unfolding insert_sorted
length-insert_sorted x [] = refl
length-insert_sorted x (y ∷ ys) = ground (arith, length-insert_sorted x ys)

pub length-sort_strings : (xs : List Text) → length (sort_strings xs) ≡ length xs
unfolding sort_strings
length-sort_strings [] = refl
length-sort_strings (x ∷ xs) =
    omega (arith, length-insert_sorted x (sort_strings xs), length-sort_strings xs)

pub set_of_seen :
    (m : List Text) (v : Text) (vs : List Text) → elem v m ≡ true → set_of m (v ∷ vs) ≡ set_of m vs
unfolding set_of
set_of_seen m v vs h = rw h

pub set_of_new :
    (m : List Text) (v : Text) (vs : List Text)
    → elem v m ≡ false
    → set_of m (v ∷ vs) ≡ set_of (m ++ v ∷ []) vs
unfolding set_of
set_of_new m v vs h = rw h

-- A slice that holds nothing new adds no key.
pub set_of_known :
    (m vs : List Text) → ((a : Text) → elem a vs ≡ true → elem a m ≡ true) → set_of m vs ≡ m
set_of_known m [] h = unfold set_of in refl
set_of_known m (v ∷ vs) h =
    set_of_seen m v vs (h v (ground (arith, ==_refl v)))
    ∙ set_of_known m vs (λ a k. h a (ground arith))

fresh_of_unique :
    (m : List Text) (v : Text) (vs : List Text) → IsUnique (m ++ v ∷ vs) → elem v m ≡ false
fresh_of_unique [] v vs u = refl
fresh_of_unique (y ∷ ys) v vs u = ground (
  arith,
  fresh_of_unique ys v vs u.1,
  any-append (λ z. z == y) ys (v ∷ vs),
  ==_iff y v,
  ==_iff v y,
)

-- A slice without duplicates is its own list of keys.
pub set_of_unique : (m vs : List Text) → IsUnique (m ++ vs) → set_of m vs ≡ m ++ vs
set_of_unique m [] u = unfold set_of in rw append-nil
set_of_unique m (v ∷ vs) u =
    set_of_new m v vs (fresh_of_unique m v vs u)
    ∙ set_of_unique (m ++ v ∷ []) vs (rw append_assoc u)
    ∙ append_assoc m (v ∷ []) vs

length-set_of : (m vs : List Text) → length m ≤ length (set_of m vs)
length-set_of m [] = unfold set_of in omega arith
length-set_of m (v ∷ vs) = elim (Bool-cases (elem v m)) [
  | inl e ↦ rw (set_of_seen m v vs e) (length-set_of m vs)
  | inr e ↦
      rw (set_of_new m v vs e)
        (omega (arith, length-set_of (m ++ v ∷ []) vs, length-append m (v ∷ [])))
]

-- A set that has not grown has the keys of before.
pub set_of_same_length : (m vs : List Text) → length (set_of m vs) ≡ length m → set_of m vs ≡ m
set_of_same_length m [] h = unfold set_of in refl
set_of_same_length m (v ∷ vs) h = elim (Bool-cases (elem v m)) [
  | inl e ↦
      set_of_seen m v vs e ∙ set_of_same_length m vs (sym (ap length (set_of_seen m v vs e)) ∙ h)
  | inr e ↦ absurd (
      omega (
        arith,
        length-set_of (m ++ v ∷ []) vs,
        length-append m (v ∷ []),
        ap length (set_of_new m v vs e),
      ))
]

insert_sorted-IsUnique :
    (x : Text) (xs : List Text) → elem x xs ≡ false → IsUnique xs → IsUnique (insert_sorted x xs)
unfolding insert_sorted
insert_sorted-IsUnique x [] new u = (refl, tt)
insert_sorted-IsUnique x (y ∷ ys) new u = elim (Bool-cases (y < x)) [
  | inl e ↦ rw e (
    ground (arith, elem-insert_sorted y x ys, ==_iff x y, ==_iff y x),
    insert_sorted-IsUnique x ys (ground arith) u.1,
  )
  | inr e ↦ rw e (new, u)
]

pub sort_strings-IsUnique : (xs : List Text) → IsUnique xs → IsUnique (sort_strings xs)
unfolding sort_strings
sort_strings-IsUnique [] u = tt
sort_strings-IsUnique (x ∷ xs) u =
    insert_sorted-IsUnique x (sort_strings xs) (rw elem-sort_strings u.0)
      (sort_strings-IsUnique xs u.1)
