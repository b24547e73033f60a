-- ===== src/Paging.antt =====
-- internal/api/v1/response/response.go: the parameters of a page and the pages of a slice; the same
-- slicing of internal/application/application.go, where the arithmetic of an `int` can wrap around.
pub mod Slices
pub mod Clamped
use epinio.Base.{
  ℕ, zero, suc, ◌+◌, ◌-◌, ◌*◌, ◌/◌, ◌%◌, ◌^◌, Bool, true, false, ◌&&◌, ◌||◌, List, [], ◌∷◌, Option,
  none, some, if◌then◌else◌, ltb, leb, eqb, length, take, drop,
}
use epinio.Text.{Text}
use epinio.Text.Affix.{is_empty}
use epinio.Integers.{ℤ, pos, negsuc, parse_int64}

-- A parameter that is a positive number, or else its default.
abbrev positive_or : ℕ → Option ℤ → ℕ
positive_or default none = default
positive_or default (some (negsuc n)) = default
positive_or default (some (pos n)) = if ltb 0 n then n else default

abbrev page_parameter : ℕ → Text → ℕ
page_parameter default s = if is_empty s then default else positive_or default (parse_int64 s)

-- `GetPaginationParams`, which is not enabled without both parameters.
unfoldable pub get_pagination_params : Text → Text → ℕ → ℕ → Option (ℕ × ℕ)
get_pagination_params page size default_page default_size =
    if is_empty page && is_empty size
    then none
    else some (page_parameter default_page page, page_parameter default_size size)

pub record PaginatedResponse (A : Type 0) : Type 0 where
  pub items : List A
  pub page : ℕ
  pub page_size : ℕ
  pub total_items : ℕ
  pub total_pages : ℕ

-- `math.Ceil` of the quotient, which is exact for fewer than 2 ^ 53 items.
unfoldable pub ceil_div : ℕ → ℕ → ℕ
ceil_div n d = (n + (d - 1)) / d

-- The number of pages, which is one without items or without a size.
unfoldable pub total_pages_of : ℕ → ℕ → ℕ
unfolding ceil_div
total_pages_of total zero = 1
total_pages_of total (suc d) = if eqb (ceil_div total (suc d)) 0 then 1 else ceil_div total (suc d)

abbrev pub clamp : ℕ → ℕ → ℕ
clamp page last = if ltb page 1 then 1 else if ltb last page then last else page

abbrev pub at_most : ℕ → ℕ → ℕ
at_most n total = if ltb total n then total else n

module _ {A : Type 0} where
  -- `BuildPaginatedResponse`
  unfoldable pub build_paginated_response : List A → ℕ → ℕ → ℕ → PaginatedResponse A
  unfolding total_pages_of
  build_paginated_response items page size total = record {
    items = items;
    page = page;
    page_size = size;
    total_items = total;
    total_pages = total_pages_of total size;
  }

  -- A page for a size that was settled. It ends within the items, so that nothing wraps around.
  unfoldable pub sized_page : List A → ℕ → ℕ → PaginatedResponse A
  unfolding total_pages_of
  sized_page items page size =
      let total = length items in
      let pages = total_pages_of total size in
      let shown = clamp page pages in
      let start = at_most ((shown - 1) * size) total in
      let end = at_most (start + size) total in
      record {
        items = take (end - start) (drop start items);
        page = shown;
        page_size = size;
        total_items = total;
        total_pages = pages;
      }

  -- `PaginateSlice`
  unfoldable pub paginate_slice : List A → ℕ → ℕ → PaginatedResponse A
  unfolding sized_page
  paginate_slice items page size = sized_page items page (if eqb size 0 then length items else size)

-- A page of a slice: it lies behind the end, its bounds are out of range, which is a panic, or it has
-- items.
pub data Slice (A : Type 0) : Type 0 where
  beyond out_of_range : Slice A
  page_items : List A → Slice A

-- An `int` of 64 bits, as the residue of an integer: the upper half are the negative ones.
abbrev pub wrap : ℕ → ℕ
wrap n = n % 2 ^ 64

abbrev pub is_negative : ℕ → Bool
is_negative n = leb (2 ^ 63) n

abbrev pub at_least_one : ℕ → ℕ → ℕ
at_least_one default n = if ltb n 1 then default else n

-- The slicing of `ListPaginated`, for a page and a size that are at least one.
unfoldable pub slice_page : {A : Type 0} → ℕ → ℕ → List A → Slice A
slice_page page size xs =
    let total = length xs in
    let start = wrap ((page - 1) * size) in
    let end = wrap (start + size) in
    let stop = if ltb total end then total else end in
    if is_negative start
    then out_of_range
    else if leb total start
    then beyond
    else if is_negative end || ltb stop start
    then out_of_range
    else page_items (take (stop - start) (drop start xs))
