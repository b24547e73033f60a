-- ===== src/Listing/ByNamespace.antt =====
-- internal/application/application.go: ListPaginatedByNamespace.
pub mod Pages
use epinio.Base.{
  ℕ, Bool, true, false, ◌&&◌, ◌||◌, not, List, [], ◌∷◌, ◌++◌, Option, none, some, if◌then◌else◌,
  Result, ok, err, length, get_or,
}
use epinio.Text.{Text}
use epinio.Text.Affix.{is_empty}
use epinio.Text.Maps.{Map, lookup, insert}
use epinio.Paging.{Slice, beyond, out_of_range, page_items, slice_page, at_least_one}
use epinio.Listing.{Resource, Source, found_in, aggregate_all}

module _ {C : Type 0} where
  -- Step II: grouping by namespace the resources that match the search.
  unfoldable pub group :
      Text → List (Resource C) → Map (List (Resource C)) → Map (List (Resource C))
  group query [] groups = groups
  group query (cr ∷ crs) groups =
      let skipped = group query crs groups in
      let old = get_or (lookup cr.namespace groups) [] in
      let taken = group query crs (insert cr.namespace (old ++ cr ∷ []) groups) in
      if not (is_empty query) && not (found_in query cr.name) then skipped else taken

  -- The resources of a page and the total, in front of those of the other namespaces.
  abbrev pub put_slice :
      Text
      → ℕ
      → Slice (Resource C)
      → Option (Map (List (Resource C) × ℕ))
      → Option (Map (List (Resource C) × ℕ))
  put_slice namespace total out_of_range rest = none
  put_slice namespace total slice none = none
  put_slice namespace total beyond (some rest) = some ((namespace, ([], total)) ∷ rest)
  put_slice namespace total (page_items crs) (some rest) = some ((namespace, (crs, total)) ∷ rest)

  -- Step III: the page of each namespace; `none` is a panic.
  unfoldable pub slice_all : ℕ → ℕ → Map (List (Resource C)) → Option (Map (List (Resource C) × ℕ))
  slice_all page size [] = some []
  slice_all page size ((namespace, crs) ∷ groups) =
      put_slice namespace (length crs) (slice_page page size crs) (slice_all page size groups)

module _ {C App D E : Type 0} (source : Source C App D E) where
  abbrev pub put_apps :
      Text → ℕ → Result E (List App) → Result E (Map (List App × ℕ)) → Result E (Map (List App × ℕ))
  put_apps namespace total (err e) rest = err e
  put_apps namespace total (ok apps) (err e) = err e
  put_apps namespace total (ok apps) (ok rest) = ok ((namespace, (apps, total)) ∷ rest)

  -- Step V: putting the applications of each page together, until an error.
  unfoldable pub assemble : D → Map (List (Resource C) × ℕ) → Result E (Map (List App × ℕ))
  unfolding aggregate_all
  assemble d [] = ok []
  assemble d ((namespace, (crs, total)) ∷ slices) =
      put_apps namespace total (aggregate_all source d crs) (assemble d slices)

  abbrev pub loaded : Option (Map (List (Resource C) × ℕ)) → Option (Result E (Map (List App × ℕ)))
  loaded none = none
  loaded (some slices) = elim (source.load_enrichment_data [] []) [
    | err e ↦ some (err e)
    | ok d ↦ some (assemble d slices)
  ]

  -- `ListPaginatedByNamespace`
  unfoldable pub list_paginated_by_namespace : ℕ → ℕ → Text → Option (Result E (Map (List App × ℕ)))
  unfolding group slice_all assemble
  list_paginated_by_namespace page size query = elim source.list_namespaces [
    | err e ↦ some (err e)
    | ok [] ↦ some (ok [])
    | ok (ns ∷ more) ↦ elim (source.list_resources []) [
      | err e ↦ some (err e)
      | ok crs ↦
          loaded (slice_all (at_least_one 1 page) (at_least_one 25 size) (group query crs []))
    ]
  ]
