-- ===== src/Paging/Slices.antt =====
-- internal/application/application.go: the pages of a list, one after the other.
use epinio.Base.{
  ℕ, zero, suc, ◌+◌, ◌-◌, ◌*◌, ◌^◌, ◌≤◌, ◌<◌, ◌||◌, List, [], ◌∷◌, ◌++◌, ◌≡◌, refl, sym, subst, ap,
  inl, inr, if◌then◌else◌, ltb, leb, length, take, drop, arith, Bool-cases,
}
use epinio.Paging.{Slice, beyond, out_of_range, page_items, slice_page, wrap, is_negative}

module _ {A : Type 0} where
  pub length-drop : (n : ℕ) (xs : List A) → length (drop n xs) ≡ length xs - n
  length-drop zero xs = omega arith
  length-drop (suc n) [] = omega arith
  length-drop (suc n) (x ∷ xs) = omega (arith, length-drop n xs)

  pub take_all : (n : ℕ) (xs : List A) → length xs ≤ n → take n xs ≡ xs
  take_all zero [] h = refl
  take_all zero (x ∷ xs) h = absurd (omega arith)
  take_all (suc n) [] h = refl
  take_all (suc n) (x ∷ xs) h = ap (λ r. x ∷ r) (take_all n xs (omega arith))

  drop_all : (n : ℕ) (xs : List A) → length xs ≤ n → drop n xs ≡ []
  drop_all zero [] h = refl
  drop_all zero (x ∷ xs) h = absurd (omega arith)
  drop_all (suc n) [] h = refl
  drop_all (suc n) (x ∷ xs) h = drop_all n xs (omega arith)

  pub take-nil : (n : ℕ) → take {A = A} n [] ≡ []
  take-nil zero = refl
  take-nil (suc n) = refl

  take-add : (m n k : ℕ) (xs : List A) → m + n ≡ k → take k xs ≡ take m xs ++ take n (drop m xs)
  take-add zero n k xs e = let same : n ≡ k = omega arith in rw same refl
  take-add (suc m) n zero xs e = absurd (omega arith)
  take-add (suc m) n (suc k) [] e = sym (take-nil n)
  take-add (suc m) n (suc k) (x ∷ xs) e = ap (λ r. x ∷ r) (take-add m n k xs (omega arith))

  -- Cutting off at the end of the list takes no fewer items.
  pub take_stop :
      (start size : ℕ) (xs : List A)
      → take
          ((if ltb (length xs) (start + size) then length xs else start + size) - start)
          (drop start xs)
        ≡ take size (drop start xs)
  take_stop start size xs = elim (Bool-cases (ltb (length xs) (start + size))) [
    | inl e ↦
        let fits : length (drop start xs) ≤ length xs - start =
          omega (arith, length-drop start xs) in
        let short : length (drop start xs) ≤ size = ground (arith, length-drop start xs) in
        rw (e, take_all (length xs - start) (drop start xs) fits)
          (sym (take_all size (drop start xs) short))
    | inr e ↦ let same : (start + size) - start ≡ size = omega arith in rw (e, same) refl
  ]

  abbrev pub page_of : ℕ → ℕ → List A → List A
  page_of page size xs = take size (drop ((page - 1) * size) xs)

  -- As long as the end of a page does not exceed an `int`, a page has the items from its start on, up
  -- to its size, or lies behind the end.
  pub slice_page-page_of :
      (page size : ℕ) (xs : List A)
      → (page - 1) * size + size < 2 ^ 63
      → slice_page page size xs ≡ (
          if leb (length xs) ((page - 1) * size) then beyond else page_items (page_of page size xs))
  unfolding slice_page
  slice_page-page_of page size xs h =
      let start : wrap ((page - 1) * size) ≡ (page - 1) * size =
        small ((page - 1) * size) (omega arith) in
      let end : wrap ((page - 1) * size + size) ≡ (page - 1) * size + size =
        small ((page - 1) * size + size) h in
      rw (start, end) (go ((page - 1) * size) h)
    where
      small : (n : ℕ) → n < 2 ^ 63 → wrap n ≡ n
      small n k = omega arith

      go :
          (n : ℕ)
          → n + size < 2 ^ 63
          → (if is_negative n
              then out_of_range
              else if leb (length xs) n
              then beyond
              else if is_negative (n + size)
                  || ltb (if ltb (length xs) (n + size) then length xs else n + size) n
              then out_of_range
              else page_items (
                  take
                    ((if ltb (length xs) (n + size) then length xs else n + size) - n)
                    (drop n xs)))
            ≡ (if leb (length xs) n then beyond else page_items (take size (drop n xs)))
      go n k = rw (take_stop n size xs) (ground arith)

  abbrev pub items_of : Slice A → List A
  items_of beyond = []
  items_of out_of_range = []
  items_of (page_items xs) = xs

  -- The items of the first pages, one page after the other.
  abbrev pub first_pages : ℕ → ℕ → List A → List A
  first_pages zero size xs = []
  first_pages (suc n) size xs = first_pages n size xs ++ items_of (slice_page (suc n) size xs)

  items_of-slice_page :
      (n size : ℕ) (xs : List A)
      → n * size + size < 2 ^ 63
      → items_of (slice_page (suc n) size xs) ≡ take size (drop (n * size) xs)
  items_of-slice_page n size xs h =
      let page : suc n - 1 ≡ n = omega arith in
      let shown : slice_page (suc n) size xs ≡ (
          if leb (length xs) (n * size)
          then beyond
          else page_items (take size (drop (n * size) xs))) =
        shifted (suc n - 1) page (slice_page-page_of (suc n) size xs) h in
      rw shown (go (n * size))
    where
      shifted :
          (m : ℕ)
          → m ≡ n
          → (m * size + size < 2 ^ 63
              → slice_page (suc n) size xs ≡ (
                  if leb (length xs) (m * size)
                  then beyond
                  else page_items (take size (drop (m * size) xs))))
          → n * size + size < 2 ^ 63
          → slice_page (suc n) size xs ≡ (
              if leb (length xs) (n * size)
              then beyond
              else page_items (take size (drop (n * size) xs)))
      shifted m e f k =
          subst
            (λ (i : ℕ). slice_page (suc n) size xs ≡ (
              if leb (length xs) (i * size)
              then beyond
              else page_items (take size (drop (i * size) xs))))
            e (f (rw e k))

      go :
          (s : ℕ)
          → items_of (if leb (length xs) s then beyond else page_items (take size (drop s xs)))
            ≡ take size (drop s xs)
      go s = elim (Bool-cases (leb (length xs) s)) [
        | inl e ↦ rw (e, drop_all s xs (ground arith), take-nil) refl
        | inr e ↦ rw e refl
      ]

  -- As long as its end does not exceed an `int`, the first pages put together are the items of the
  -- list in their order, up to the end of the last of those pages; so enough pages have every item,
  -- and none twice.
  pub first_pages-take :
      (n size : ℕ) (xs : List A) → n * size < 2 ^ 63 → first_pages n size xs ≡ take (n * size) xs
  first_pages-take zero size xs h = let none : zero * size ≡ zero = omega arith in rw none refl
  first_pages-take (suc n) size xs h =
      let last : n * size + size ≡ suc n * size = omega arith in
      let before : n * size < 2 ^ 63 = omega arith in
      rw (first_pages-take n size xs before, items_of-slice_page n size xs (omega arith))
        (sym (take-add (n * size) size (suc n * size) xs last))
