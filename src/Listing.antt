-- ===== src/Listing.antt =====
-- internal/application/application.go: List, ListPaginated and ListPaginatedByNamespace;
-- internal/api/v1/application: Index, FullIndex and GroupedIndex, which answer with such lists.
pub mod ByNamespace
pub mod Handlers
pub mod Visible
pub mod Truncated
mod Tests
use epinio.Base.{
  ℕ, ◌+◌, Bool, true, false, ◌&&◌, ◌||◌, not, List, [], ◌∷◌, ◌++◌, Option, none, some,
  if◌then◌else◌, Result, ok, err, ltb, leb, length, filter, map, get_or,
}
use epinio.Text.{Text, codes, ◌==◌, elem}
use epinio.Text.Affix.{is_empty}
use epinio.Text.Prefix.{contains}
use epinio.Text.Maps.{Map, lookup, insert}
use epinio.Auth.User.{User, is_admin, has_global_role}
use epinio.Auth.Filter.{filter_resources}
use epinio.Paging.{
  Slice, beyond, out_of_range, page_items, slice_page, at_least_one, get_pagination_params,
  PaginatedResponse, build_paginated_response, paginate_slice,
}

-- `strings.ToLower` on ASCII bytes.
abbrev pub to_lower : Text → Text
to_lower = map (λ c. if leb b'A' c && leb c b'Z' then c + 32 else c)

abbrev pub found_in : Text → Text → Bool
found_in query name = contains (to_lower name) (to_lower query)

-- An application resource of the cluster.
pub record Resource (C : Type 0) : Type 0 where
  pub name : Text
  pub namespace : Text
  pub content : C

abbrev pub searched : {C : Type 0} → Text → List (Resource C) → List (Resource C)
searched {C} query crs =
    if is_empty query then crs else filter (λ (cr : Resource C). found_in query cr.name) crs

-- The calls that a list is made with: the resources of a namespace, or of all for the empty one; the
-- names of the Epinio namespaces; the data that enriches the applications of a namespace with certain
-- names, or all; and putting one application together, which gives none while it is being deleted.
pub record Source (C App D E : Type 0) : Type 0 where
  pub list_resources : Text → Result E (List (Resource C))
  pub list_namespaces : Result E (List Text)
  pub load_enrichment_data : Text → List Text → Result E D
  pub aggregate : D → Resource C → Result E (Option App)

module _ {C App D E : Type 0} (source : Source C App D E) where
  abbrev pub put : Option App → Result E (List App) → Result E (List App)
  put none r = r
  put (some a) (ok apps) = ok (a ∷ apps)
  put (some a) (err e) = err e

  -- The loop that puts the applications together until an error; its error drops what it has.
  unfoldable pub aggregate_all : D → List (Resource C) → Result E (List App)
  aggregate_all d [] = ok []
  aggregate_all d (cr ∷ crs) =
      let rest = aggregate_all d crs in
      elim (source.aggregate d cr) [ err e ↦ err e | ok o ↦ put o rest ]

  -- `List`
  unfoldable pub list_all : Text → Result E (List App)
  unfolding aggregate_all
  list_all namespace = elim (source.list_resources namespace) [
    | err e ↦ err e
    | ok crs ↦ elim (source.load_enrichment_data namespace []) [
      | err e ↦ err e
      | ok d ↦ aggregate_all d crs
    ]
  ]

  -- The applications of a page, of a total.
  abbrev pub enriched : Text → ℕ → Slice (Resource C) → Option (Result E (List App × ℕ))
  enriched namespace total beyond = some (ok ([], total))
  enriched namespace total out_of_range = none
  enriched namespace total (page_items crs) =
      elim (source.load_enrichment_data namespace (map (λ (cr : Resource C). cr.name) crs)) [
        | err e ↦ some (err e)
        | ok d ↦ elim (aggregate_all d crs) [
          | err e ↦ some (err e)
          | ok apps ↦ some (ok (apps, total))
        ]
      ]

  -- `ListPaginated`
  unfoldable pub list_paginated : Text → ℕ → ℕ → Text → Option (Result E (List App × ℕ))
  unfolding aggregate_all
  list_paginated namespace page size query = elim (source.list_resources namespace) [
    | err e ↦ some (err e)
    | ok crs ↦
        let matched = searched query crs in
        enriched namespace (length matched)
          (slice_page (at_least_one 1 page) (at_least_one 25 size) matched)
  ]
