-- ===== src/Paging/Clamped.antt =====
-- internal/api/v1/response/response.go: the page that PaginateSlice returns.
use epinio.Base.{
  ℕ, zero, suc, ◌+◌, ◌-◌, ◌*◌, ◌/◌, ◌≤◌, ◌<◌, false, List, [], ◌∷◌, ◌≡◌, ◌⊎◌, refl, sym, ◌∙◌, inl,
  inr, ltb, eqb, length, take, drop, arith, Bool-cases, length-take,
}
use native.Mathlib.Nat.{div-mul-le_self, lt-div-mul-add, zero-lt-suc, mul-le-mul_right}
use epinio.Paging.{
  ceil_div, total_pages_of, PaginatedResponse, paginate_slice, sized_page, clamp, at_most,
}
use epinio.Paging.Slices.{take-nil, length-drop, take_stop, page_of}

-- The pages hold all items, and one page less does not.
ceil_div-enough : (n d : ℕ) → n ≤ ceil_div n (suc d) * suc d
unfolding ceil_div
ceil_div-enough n d =
    let above = lt-div-mul-add {a = n + (suc d - 1)} {b = suc d} (zero-lt-suc d) in omega arith

ceil_div-least : (n d : ℕ) → 0 < n → (ceil_div n (suc d) - 1) * suc d < n
unfolding ceil_div
ceil_div-least n d h =
    let below = div-mul-le_self (n + (suc d - 1)) (suc d) in go ((n + (suc d - 1)) / suc d) below
  where
    go : (q : ℕ) → q * suc d ≤ n + (suc d - 1) → (q - 1) * suc d < n
    go zero k = omega arith
    go (suc q) k = let less : suc q - 1 ≡ q = omega arith in rw less (omega arith)

-- The number of pages for a size that is not zero.
total_pages_of-bounds :
    (n d : ℕ)
    → (1 ≤ total_pages_of n (suc d))
      × (n ≤ total_pages_of n (suc d) * suc d)
      × ((n ≡ 0) ⊎ ((total_pages_of n (suc d) - 1) * suc d < n))
unfolding total_pages_of
total_pages_of-bounds n d = elim (Bool-cases (eqb (ceil_div n (suc d)) 0)) [
  | inl e ↦
      let none : ceil_div n (suc d) ≡ 0 = ground arith in
      let empty : n ≤ 0 * suc d = rw (← none) (ceil_div-enough n d) in
      rw e (omega arith, omega arith, inl (omega arith))
  | inr e ↦
      let some_pages : 1 ≤ ceil_div n (suc d) = ground arith in
      rw e (some_pages, ceil_div-enough n d, some_left n (ceil_div-least n d))
]
  where
    some_left : (m : ℕ) {s : ℕ} → (0 < m → s < m) → (m ≡ 0) ⊎ (s < m)
    some_left zero f = inl refl
    some_left (suc m) f = inr (f (omega arith))

clamp_bounds : (page last : ℕ) → 1 ≤ last → (1 ≤ clamp page last) × (clamp page last ≤ last)
clamp_bounds page last h = (ground arith, ground arith)

module _ {A : Type 0} where
  -- A page of the list, with the number of pages that hold all of it; it has items unless there are
  -- none at all.
  abbrev pub IsPage : List A → PaginatedResponse A → Type 0
  IsPage xs r =
      (1 ≤ r.page)
      × (r.page ≤ r.total_pages)
      × (length xs ≤ r.total_pages * r.page_size)
      × (r.items ≡ page_of r.page r.page_size xs)
      × ((xs ≡ []) ⊎ (0 < length r.items))

  drop-nil : (n : ℕ) → drop {A = A} n [] ≡ []
  drop-nil zero = refl
  drop-nil (suc n) = refl

  nothing_left : (m n : ℕ) → take {A = A} m (drop n []) ≡ []
  nothing_left m n = rw drop-nil (take-nil m)

  both_empty : (m n page size : ℕ) → take {A = A} m (drop n []) ≡ page_of page size []
  both_empty m n page size = nothing_left m n ∙ sym (nothing_left size ((page - 1) * size))

  -- The bounds of a page that starts within the items.
  started :
      (start size : ℕ) (xs : List A)
      → start < length xs
      → 0 < size
      → let s = at_most start (length xs) in
        (take (at_most (s + size) (length xs) - s) (drop s xs) ≡ take size (drop start xs))
        × (0 < length (take (at_most (s + size) (length xs) - s) (drop s xs)))
  started start size xs h k =
      let within : ltb (length xs) start ≡ false = ground arith in
      rw within (
        take_stop start size xs,
        ground (
          arith,
          length-take (at_most (start + size) (length xs) - start) (drop start xs),
          length-drop start xs,
        ),
      )

  sized_page-IsPage : (xs : List A) (page d : ℕ) → IsPage xs (sized_page xs page (suc d))
  unfolding sized_page
  sized_page-IsPage [] page d =
      let (some_pages, enough, least) = total_pages_of-bounds 0 d in
      let (low, high) = clamp_bounds page (total_pages_of 0 (suc d)) some_pages in
      (low, high, enough, both_empty _ _ (clamp page (total_pages_of 0 (suc d))) (suc d), inl refl)
  sized_page-IsPage (x ∷ xs) page d =
      let (some_pages, enough, least) = total_pages_of-bounds (length (x ∷ xs)) d in
      let shown = clamp page (total_pages_of (length (x ∷ xs)) (suc d)) in
      let (low, high) = clamp_bounds page (total_pages_of (length (x ∷ xs)) (suc d)) some_pages in
      let (cut, left) =
        started ((shown - 1) * suc d) (suc d) (x ∷ xs)
          (before shown (total_pages_of (length (x ∷ xs)) (suc d)) high least) (omega arith) in
      (low, high, enough, cut, inr left)
    where
      before :
          (shown pages : ℕ)
          → shown ≤ pages
          → (suc (length xs) ≡ 0) ⊎ ((pages - 1) * suc d < suc (length xs))
          → (shown - 1) * suc d < suc (length xs)
      before shown pages h (inl e) = absurd (omega arith)
      before shown pages h (inr l) =
          let fewer : shown - 1 ≤ pages - 1 = omega arith in
          omega (arith, mul-le-mul_right (suc d) fewer)

  -- Whatever page and size are asked for, `PaginateSlice` returns a page that there is, with the items
  -- of the list that stand on it; only an empty list gives an empty page.
  pub paginate_slice-IsPage :
      (xs : List A) (page size : ℕ) → IsPage xs (paginate_slice xs page size)
  unfolding paginate_slice
  paginate_slice-IsPage xs page (suc d) =
      let given : eqb (suc d) 0 ≡ false = ground arith in rw given (sized_page-IsPage xs page d)
  paginate_slice-IsPage (x ∷ xs) page zero = sized_page-IsPage (x ∷ xs) page (length xs)
  paginate_slice-IsPage [] page zero = empty_page
    where
      empty_page : IsPage [] (sized_page [] page 0)
      empty_page =
          let (low, high) = clamp_bounds page 1 (omega arith) in
          (
            low,
            high,
            omega arith,
            both_empty
                (at_most (at_most ((clamp page 1 - 1) * 0) 0 + 0) 0
                  - at_most ((clamp page 1 - 1) * 0) 0)
                (at_most ((clamp page 1 - 1) * 0) 0) (clamp page 1) 0,
            inl refl,
          )
